-- ===== src/Watcher/Sweep/Insertion.antt =====
-- What config-watcher/discovery_sweep.go inserts for one discovered address.
use beacon_v.Prelude.{
  ℕ, suc, String, Bool, true, false, none, some, List, [], ◌∷◌, ◌++◌, ◌==◌, length, length-append,
  if◌then◌else◌, All, All-append, append_assoc, ◌≡◌, refl, ap, sym, ◌∙◌, arith, Bool-cases, inl,
  inr,
}
use beacon_v.Exec.{Result, Result-cases, ok, err}
use beacon_v.Exec.Ensures.{
  Ensures, Post, Ensures-pure, Ensures-if, Ensures-bind, Ensures-attempt, Ensures-attempted,
  Ensures-or_fail,
}
use beacon_v.Netutil.{is_public}
use beacon_v.World.{Error, Row, World, Env}
use beacon_v.World.Ticks.{IgnoresTicks}
use beacon_v.Crypto.{Key}
use beacon_v.Crypto.RoundTrip.{encrypt-keeps}
use beacon_v.Snmp.{Credentials}
use beacon_v.Snmp.Probing.{verify-keeps}
use beacon_v.Store.{Device, find_ip}
use beacon_v.Store.Devices.{create, create_body, inserted, with_status}
use beacon_v.Store.Preservation.{get_by_ip-keeps, Ensures-timed}
use beacon_v.Store.Success.{insert_row-ok, insert_row-err}
use beacon_v.Watcher.Sweep.{
  untracked, created, with_credentials, should_consider_discovered_ip, discovered, draft,
  insert_discovered_device,
}

-- A row that a sweep may add: a private address that `start` does not have, and no credentials
-- beyond a version and a community, which are there only if duplication is enabled.
pub record IsDiscovered (env : Env) (start : World) (dup_enabled : Bool) (r : Row) : Type 0 where
  pub private_address : is_public env.v6_text r.ip_address ≡ false
  pub untracked : find_ip r.ip_address start.devices ≡ none
  pub via : r.discovered_via ≡ some "routing_table_sweep"
  pub not_public : r.is_public_ip ≡ some false
  pub no_auth_key : r.v3_auth_key ≡ some ""
  pub no_priv_key : r.v3_priv_key ≡ some ""
  pub no_duplication :
      dup_enabled ≡ false
      → (r.status ≡ some "pending") × (r.community ≡ some "") × (r.snmp_version ≡ some "")

-- `count` such rows stand behind those of `start`.
pub record Swept (env : Env) (start : World) (dup_enabled : Bool) (count : ℕ) (w : World)
    : Type 0 where
  pub added : List Row
  pub rows : w.devices ≡ start.devices ++ added
  pub counted : length added ≡ count
  pub discovered : All (IsDiscovered env start dup_enabled) added

record IsDraft (ip : String) (dup_enabled : Bool) (d : Device) : Type 0 where
  address : d.ip_address ≡ ip
  not_public : d.is_public_ip ≡ false
  via : d.discovered_via ≡ "routing_table_sweep"
  no_auth_key : d.v3_auth_key ≡ ""
  no_priv_key : d.v3_priv_key ≡ ""
  no_duplication :
      dup_enabled ≡ false → (d.status ≡ "pending") × (d.community ≡ "") × (d.snmp_version ≡ "")

find_ip-prefix :
    (ip : String) (rs more : List Row) → find_ip ip (rs ++ more) ≡ none → find_ip ip rs ≡ none
unfolding find_ip
find_ip-prefix ip [] more h = refl
find_ip-prefix ip (r ∷ rs) more h = ground (arith, find_ip-prefix ip rs more)

-- The loops themselves do not fail.
abbrev pub Never : World → Type 0
Never w = ⊥

-- The answer of `insertDiscoveredDevice` says whether a row was added.
abbrev pub counted_by : ℕ → Bool → ℕ
counted_by n inserted = if inserted then suc n else n

module _ (env : Env) (key : Key) (start : World) (dup_enabled : Bool) where
  abbrev Now : ℕ → World → Type 0
  Now = Swept env start dup_enabled

  pub Now-ignores : (n : ℕ) → IgnoresTicks (Now n)
  Now-ignores n w h = record {
    added = h.added;
    rows = h.rows;
    counted = h.counted;
    discovered = h.discovered;
  }

  attempted-IsDraft :
      (ip : String) (creds : Credentials) (community : Result Error String) (status : String)
      → dup_enabled ≡ true
      → IsDraft ip dup_enabled
          (record (with_credentials creds community (discovered ip)) { status = status })
  attempted-IsDraft ip creds (ok c) status e = record {
    address = refl;
    not_public = refl;
    via = refl;
    no_auth_key = refl;
    no_priv_key = refl;
    no_duplication = λ f. absurd (cc);
  }
  attempted-IsDraft ip creds (err _) status e = record {
    address = refl;
    not_public = refl;
    via = refl;
    no_auth_key = refl;
    no_priv_key = refl;
    no_duplication = λ f. absurd (cc);
  }

  draft-IsDraft :
      (n : ℕ) (ip : String) (creds : Credentials) (dup : Bool)
      → dup ≡ dup_enabled
      → Ensures
          (Now n)
          (draft env key ip creds dup)
          (λ d w. Now n w × IsDraft ip dup_enabled d)
          Never
  unfolding draft
  draft-IsDraft n ip creds false e = Ensures-pure _ λ w h. (
    h,
    record {
      address = refl;
      not_public = refl;
      via = refl;
      no_auth_key = refl;
      no_priv_key = refl;
      no_duplication = λ _. (refl, refl, refl);
    },
  )
  draft-IsDraft n ip creds true e =
      Ensures-bind (λ _. Now n) _ _ (Ensures-attempted _ (encrypt-keeps (Now-ignores n) env key _))
        λ community.
          Ensures-bind (λ _. Now n) _ _
            (Ensures-attempted _ (verify-keeps (Now-ignores n) env ip creds _))
            λ r. Ensures-pure _ (λ w h. (h, attempted-IsDraft ip creds community _ (sym e)))

  inserted-IsDiscovered :
      (ip : String) (d : Device) (id : ℕ) (now : String)
      → IsDraft ip dup_enabled d
      → is_public env.v6_text ip ≡ false
      → find_ip (inserted (with_status d) id now).ip_address start.devices ≡ none
      → IsDiscovered env start dup_enabled (inserted (with_status d) id now)
  inserted-IsDiscovered ip d id now h private_ip fresh = elim (Bool-cases (d.status == "")) [
    | inl empty ↦ rw empty (record {
      private_address = rw h.address private_ip;
      untracked = rw empty at fresh;
      via = ap some h.via;
      not_public = ap some h.not_public;
      no_auth_key = ap some h.no_auth_key;
      no_priv_key = ap some h.no_priv_key;
      no_duplication = λ e.
          let (_, community, version) = h.no_duplication e in
          (refl, ap some community, ap some version);
    })
    | inr given ↦ rw given (record {
      private_address = rw h.address private_ip;
      untracked = rw given at fresh;
      via = ap some h.via;
      not_public = ap some h.not_public;
      no_auth_key = ap some h.no_auth_key;
      no_priv_key = ap some h.no_priv_key;
      no_duplication = λ e.
          let (status, community, version) = h.no_duplication e in
          (ap some status, ap some community, ap some version);
    })
  ]

  module _ (n : ℕ) (ip : String) (d : Device) (private_ip : is_public env.v6_text ip ≡ false) where
    Drafted : World → Type 0
    Drafted w = Now n w × IsDraft ip dup_enabled d

    row_added :
        (now : String) (w : World) (id : ℕ)
        → Now n w
        → IsDraft ip dup_enabled d
        → (create_body d now w).0 ≡ ok id
        → Now (suc n) (create_body d now w).1
    row_added now w id h draft done =
        let r : Row = inserted (with_status d) w.next_id now in
        let ins = insert_row-ok r w id done in
        let fresh = find_ip-prefix r.ip_address start.devices h.added (rw h.rows at ins.fresh) in
        record {
          added = h.added ++ r ∷ [];
          rows =
              ins.rows
              ∙ ap (λ rs. rs ++ r ∷ []) h.rows
              ∙ append_assoc start.devices h.added (r ∷ []);
          counted = omega (arith, length-append h.added (r ∷ []), h.counted);
          discovered =
              All-append (IsDiscovered env start dup_enabled) h.added (r ∷ []) h.discovered
                (inserted-IsDiscovered ip d w.next_id now draft private_ip fresh, tt);
        }

    create-counts : Ensures Drafted (create env d) (λ _. Now (suc n)) (Now n)
    unfolding create Drafted
    create-counts = Ensures-or_fail _ _ (
        Ensures-timed (λ w h. (Now-ignores n w h.0, h.1)) env (create_body d) (λ w h. h.0)
          λ now. record {
            after = λ w h. elim (Result-cases (create_body d now w).0) [
              | inl (id, done) ↦ rw done (row_added now w id h.0 h.1 done)
              | inr (e, failed) ↦
                  rw (failed, insert_row-err (inserted (with_status d) w.next_id now) w e failed)
                    h.0
            ];
          })

  created-counts :
      (n : ℕ) (r : Result Error ℕ) (w : World)
      → Post (λ _. Now (suc n)) (Now n) r w
      → Now (counted_by n (created r)) w
  created-counts n (ok id) w h = h
  created-counts n (err e) w h = h

  pub insert-counts :
      (n : ℕ) (ip : String) (creds : Credentials)
      → is_public env.v6_text ip ≡ false
      → Ensures
          (Now n)
          (insert_discovered_device env key ip creds dup_enabled)
          (λ inserted. Now (counted_by n inserted))
          Never
  unfolding insert_discovered_device Drafted
  insert-counts n ip creds private_ip =
      Ensures-bind _ _ _ (draft-IsDraft n ip creds dup_enabled refl) λ d.
        Ensures-bind _ _ _ (Ensures-attempt _ (create-counts n ip d private_ip))
          λ r. Ensures-pure _ (λ w h. created-counts n r w h)

  pub consider-private :
      (n : ℕ) (ip parent_ip : String)
      → Ensures
          (Now n)
          (should_consider_discovered_ip env key ip parent_ip)
          (λ wanted w. Now n w × (wanted ≡ true → is_public env.v6_text ip ≡ false))
          Never
  unfolding should_consider_discovered_ip
  consider-private n ip parent_ip =
      Ensures-if (ip == parent_ip) _ _
        (λ _. Ensures-pure false (λ w h. (h, λ (x : false ≡ true). absurd (cc))))
        λ _.
          Ensures-if (is_public env.v6_text ip) _ _
            (λ _. Ensures-pure false (λ w h. (h, λ (x : false ≡ true). absurd (cc))))
            λ private_ip.
              Ensures-bind (λ _. Now n) _ _
                (Ensures-attempted _ (get_by_ip-keeps (Now-ignores n) env ip))
                λ r. Ensures-pure (untracked r) (λ w h. (h, λ _. private_ip))
