-- ===== src/Snmp/Defaults.antt =====
-- ProbeDefaults of internal/snmp/probe.go, down to the messages that it sends to an agent.
use beacon_v.Prelude.{
  ℕ, suc, String, List, [], ◌∷◌, ◌<>◌, ◌∙◌, Bool, true, false, Option, Option-cases, none, some,
  if◌then◌else◌, ◌≡◌, refl, inl, inr,
}
use beacon_v.Exec.{map_err, Result, ok, err, ◌>>=◌, attempt, or_fail}
use beacon_v.World.{
  Error, SnmpVersion, version1, version2c, probe_failed, Client, World, Env, Go, wrap, call,
  outcome,
}
use beacon_v.Snmp.{
  Credentials, build_client, sys_descr0, by_community, default_creds, probed, probe_list,
  probe_defaults, verify,
}

abbrev pub is_answer : Option Error → Bool
is_answer none = true
is_answer (some _) = false

-- An agent without SNMPv3: whether it answers a read of sysDescr.0 depends on the version and the
-- community of the message alone, at any time.
pub record Agent (env : Env) (ip : String) (answers : SnmpVersion → String → Bool) : Type 0 where
  pub connects : (t : ℕ) (c : Client) → c.target ≡ ip → env.connect t c ≡ none
  pub reads :
      (t : ℕ) (c : Client)
      → c.target ≡ ip
      → is_answer (env.get t c "1.3.6.1.2.1.1.1.0") ≡ answers c.version c.community

abbrev pub community_credentials : String → String → Credentials
community_credentials version community = record {
  version = version;
  community = community;
  v3_user = "";
  v3_auth_key = "";
  v3_priv_key = "";
  v3_auth_protocol = "";
  v3_priv_protocol = "";
}

module _ (env : Env) (ip : String) (timeout : ℕ) (answers : SnmpVersion → String → Bool)
    (agent : Agent env ip answers) where
  abbrev succeeded : Result Error (Unit {0}) → Bool
  succeeded (ok _) = true
  succeeded (err _) = false

  get-answers :
      (t : ℕ) (c : Client)
      → c.target ≡ ip
      → succeeded
          (map_err (wrap ("snmp: get sysDescr from " <> ip)) (outcome (env.get t c sys_descr0) tt))
        ≡ answers c.version c.community
  get-answers t c e = elim (Option-cases (env.get t c sys_descr0)) [
    | inl answered ↦ rw answered (rw answered at (agent.reads t c e))
    | inr (failure, failed) ↦ rw failed (rw failed at (agent.reads t c e))
  ]

  verify-answers :
      (creds : Credentials) (c : Client) (w : World)
      → build_client ip creds timeout ≡ ok c
      → c.target ≡ ip
      → succeeded (verify env ip creds timeout w).0 ≡ answers c.version c.community
  unfolding verify call ◌>>=◌ or_fail
  verify-answers creds c w built e =
      rw (built, agent.connects w.ticks c e) (get-answers (suc w.ticks) c e)

  -- One round of the loop.
  probed-first :
      (creds : Credentials) (next : Go Credentials) (r : Result Error (Unit {0})) (w : World)
      → (probed creds next r w).0 ≡ (if succeeded r then ok creds else (next w).0)
  unfolding ◌>>=◌ attempt
  probed-first creds next (ok done) w = refl
  probed-first creds next (err e) w = refl

  round :
      (d : SnmpVersion × String) (ds : List (SnmpVersion × String)) (c : Client) (w : World)
      → build_client ip (default_creds d) timeout ≡ ok c
      → c.target ≡ ip
      → (v : World) × ((probe_list env (d ∷ ds) ip timeout w).0 ≡ (
          if answers c.version c.community
          then ok (default_creds d)
          else (probe_list env ds ip timeout v).0))
  unfolding probe_list ◌>>=◌ attempt
  round d ds c w built e =
      let (r, v) = verify env ip (default_creds d) timeout w in
      (
        v,
        probed-first (default_creds d) (probe_list env ds ip timeout) r v
            ∙ (rw (verify-answers (default_creds d) c w built e) refl),
      )

  -- Of such an agent ProbeDefaults returns the first that it answers to of SNMPv2c with the community
  -- "public", SNMPv2c with "private" and SNMPv1 with "public", as credentials of version "v2c" or
  -- "v1", and ErrProbeFailed if it answers to none of them.
  pub probe_defaults-first :
      (w : World)
      → (probe_defaults env ip timeout w).0 ≡ (
          if answers version2c "public"
          then ok (community_credentials "v2c" "public")
          else if answers version2c "private"
          then ok (community_credentials "v2c" "private")
          else if answers version1 "public"
          then ok (community_credentials "v1" "public")
          else err probe_failed)
  unfolding probe_defaults build_client probe_list ◌>>=◌
  probe_defaults-first w =
      let last = (version1, "public") ∷ [] in
      let (u, first) =
        round (version2c, "public") ((version2c, "private") ∷ last)
          (by_community ip (default_creds (version2c, "public")) timeout version2c) w refl refl in
      let (v, second) =
        round (version2c, "private") last
          (by_community ip (default_creds (version2c, "private")) timeout version2c) u refl refl in
      let (t, third) =
        round (version1, "public") []
          (by_community ip (default_creds (version1, "public")) timeout version1) v refl refl in
      first ∙ (rw (second, third) refl)
