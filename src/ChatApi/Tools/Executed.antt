-- ===== src/ChatApi/Tools/Executed.antt =====
-- executeTool of chat-api/tools.go: every tool sends permitted queries only.
use beacon_v.Prelude.{
  ℕ, String, Bool, true, Option, none, some, List, [], ◌∷◌, ◌++◌, ◌==◌, ◌<>◌, keep, All, ◌≡◌, sym,
  ap, ◌∙◌, arith, eq_iff, eqb, Bool-cases, inl, inr,
}
use mathlib.Core.Path.{subst}
use beacon_v.Exec.{Result, ok, fail, lift, or_fail}
use beacon_v.Exec.Keeps.{Keeps, Keeps-bind, Keeps-pure, Keeps-lift, Keeps-or_fail, keeps_rules}
use beacon_v.Exec.Ensures.{
  Ensures, Ensures-bind, Ensures-lift, Ensures-or_fail, Ensures-of, Ensures-if, Ensures-fail,
  Ensures-given, Ensures-weaken, Ensures-keeps, Ensures-know, Ensures-know_lift, Ensures-then,
  Keeps-ensured, Ensures-pure,
}
use beacon_v.World.{Error, wrap, message}
use beacon_v.ChatApi.Float.{Float}
use beacon_v.ChatApi.Services.{
  Object, Response, Services, Chat, ConfigApiClient, request, decode_ok, list_devices,
  get_recent_traps, tick, config_refused,
}
use beacon_v.ChatApi.Devices.{
  KnownDevice, Outcome, by_address, by_name, by_prefix, several, unknown, First,
  resolve_device-Outcome,
}
use beacon_v.ChatApi.Query.{clamp_hours, input_string}
use beacon_v.ChatApi.SubFilter.{ToolContext}
use beacon_v.ChatApi.Tools.{
  required_hours, find_device, tool_list_devices, tool_query_metric, tool_rank_devices,
  tool_get_recent_traps, execute_tool,
}
use beacon_v.ChatApi.Tools.Quiet.{request-keeps, decode_ok-keeps}
use beacon_v.ChatApi.Tools.Permitted.{
  has_host, Answered, Listed, IsBounded, metric_query, AllPermitted, query-keeps,
  resolve_sub_filter-keeps, rank_all-keeps,
}

-- What a request and a decoded response tell.
module _ {A : Type 0} (P : Chat → Type 0) where
  request-Ensures :
      (answer : ℕ → Result Error A) (note : Chat → Chat)
      → ((c : Chat) → P c → P (note c))
      → Ensures P (request answer note) (λ a c. P c × ((n : ℕ) × (answer n ≡ ok a))) P
  unfolding request
  request-Ensures answer note kept =
      Ensures-of (request answer note) (λ c p a e. (kept c p, (c.ticks, e))) kept

  decode_ok-Ensures :
      (trim_space : String → String) (reading : Error → Error) (refused : ℕ → String)
      (decoding : String) (resp : Response A)
      → Ensures P
          (decode_ok trim_space reading refused decoding resp)
          (λ a c. P c × (resp.decoded ≡ ok a))
          P
  unfolding decode_ok
  decode_ok-Ensures trim_space reading refused decoding resp =
      Ensures-bind (λ _. P) _ _
        (Ensures-or_fail _ _ (Ensures-lift resp.body (λ body e c p. p) (λ c p. p)))
        (λ body.
          Ensures-if (eqb resp.status 200) (or_fail (wrap decoding) (lift resp.decoded))
            (fail (message (refused resp.status <> trim_space body)))
            (λ _. Ensures-or_fail _ _ (Ensures-lift resp.decoded (λ a e c p. (p, e)) (λ c p. p)))
            (λ _. Ensures-fail _ (λ c p. p)))

has_host-append :
    (before after : List KnownDevice) (d : KnownDevice)
    → has_host (before ++ d ∷ after) d.ip_address ≡ true
unfolding has_host
has_host-append [] after d = ground (arith, eq_iff d.ip_address d.ip_address)
has_host-append (e ∷ before) after d = ground (arith, has_host-append before after d)

has_host-kept :
    (test : KnownDevice → Bool) (ds : List KnownDevice) (d : KnownDevice) (rest : List KnownDevice)
    → keep test ds ≡ d ∷ rest
    → has_host ds d.ip_address ≡ true
unfolding has_host
has_host-kept test [] d rest h = absurd (cc)
has_host-kept test (e ∷ ds) d rest h = elim (Bool-cases (test e)) [
  | inl yes' ↦
      let found : e ∷ keep test ds ≡ d ∷ rest = rw yes' at h in
      let same : e ≡ d = cc in
      let t : (e.ip_address == d.ip_address) ≡ true =
        (eq_iff e.ip_address d.ip_address).1 (ap (λ x. x.ip_address) same) in
      ground arith
  | inr skipped ↦ ground (arith, has_host-kept test ds d rest)
]

First-has_host :
    {test : KnownDevice → Bool} {ds : List KnownDevice} {e d : KnownDevice}
    → First test e ds
    → e ≡ d
    → has_host ds d.ip_address ≡ true
First-has_host {ds} {e} first same =
    subst (λ x. has_host ds x.ip_address ≡ true) same
      (subst (λ l. has_host l e.ip_address ≡ true) (sym first.split)
        (has_host-append first.before first.after e))

Outcome-has_host :
    {address name prefix : KnownDevice → Bool} {ds : List KnownDevice}
    {r : Result Error KnownDevice}
    → Outcome address name prefix ds r
    → (d : KnownDevice) → r ≡ ok d
    → has_host ds d.ip_address ≡ true
Outcome-has_host (by_address {d = d'} first) d h =
    First-has_host {d = d} first (let same : d' ≡ d = cc in same)
Outcome-has_host (by_name {d = d'} none_has first) d h =
    First-has_host {d = d} first (let same : d' ≡ d = cc in same)
Outcome-has_host {prefix} {ds} (by_prefix {d = d'} none_has none_named only) d h =
    has_host-kept prefix ds d [] (let same : d' ≡ d = cc in only ∙ ap (λ x. x ∷ []) same)
Outcome-has_host (several _ _ _) d h = absurd (cc)
Outcome-has_host (unknown _ _ _) d h = absurd (cc)

module _ {F : Type 0} (fl : Float F) (services : Services F) (tc : ToolContext) where
  found-Listed :
      (ds : List KnownDevice) (text : String) (d : KnownDevice)
      → Answered fl services tc ds
      → find_device fl services tc ds text ≡ ok d
      → Listed fl services tc d.ip_address
  found-Listed ds text d answered h = record {
    devices = ds;
    answered = answered;
    listed =
        Outcome-has_host
          (resolve_device-Outcome services.trim_space services.to_lower services.equal_fold ds text)
          d h;
  }

  all-Listed :
      (ds tail : List KnownDevice)
      → Answered fl services tc ds
      → ((host : String) → has_host tail host ≡ true → has_host ds host ≡ true)
      → All (λ d. Listed fl services tc d.ip_address) tail
  unfolding has_host
  all-Listed ds [] answered within = tt
  all-Listed ds (d ∷ tail) answered within = (
    record {
      devices = ds;
      answered = answered;
      listed = within d.ip_address (ground (arith, eq_iff d.ip_address d.ip_address));
    },
    all-Listed ds tail answered (λ host h. within host (ground arith)),
  )

  required_hours-IsBounded :
      (given : Option F) (hours : F)
      → required_hours fl services tc given ≡ ok hours
      → IsBounded fl services tc hours
  unfolding clamp_hours
  required_hours-IsBounded none hours h = absurd (cc)
  required_hours-IsBounded (some x) hours h = ground arith

  abbrev P : Chat → Type 0
  P = AllPermitted fl services tc

  list_devices-Answered :
      (client : ConfigApiClient)
      → Ensures P (list_devices services client) (λ ds c. P c × Answered fl services tc ds) P
  unfolding list_devices
  list_devices-Answered client =
      Ensures-bind
        (λ resp c.
          P c × ((n : ℕ) × (services.get_devices n (client.base_url <> "/devices") ≡ ok resp)))
        _ _ (Ensures-or_fail _ _ (request-Ensures P _ tick (λ c p. p)))
        (λ resp. Ensures-given _ (λ (n, e).
          Ensures-weaken (λ ds c. P c × (resp.decoded ≡ ok ds)) _
            (λ ds c (p, decoded).
              (p, record { at = n; url = _; response = resp; answer = e; decoded = decoded }))
            (decode_ok-Ensures P services.trim_space (λ e. e) config_refused
              "decoding config-api response" resp)))

  tool_list_devices-keeps : Keeps P (tool_list_devices fl services tc)
  unfolding tool_list_devices
  tool_list_devices-keeps = Keeps-ensured _ (
      Ensures-know (Answered fl services tc) _ _ (list_devices-Answered tc.config_api)
        (λ ds answered. Ensures-pure _ (λ c p. p)))

  get_recent_traps-keeps :
      (client : ConfigApiClient) (hours : F) → Keeps P (get_recent_traps services fl client hours)
  unfolding get_recent_traps
  get_recent_traps-keeps client hours =
      Keeps-bind _ _ (Keeps-or_fail _ _ (request-keeps P _ tick (λ c p. p)))
        (λ resp. search (keeps_rules, decode_ok-keeps))

  tool_get_recent_traps-keeps :
      (input : Object F) → Keeps P (tool_get_recent_traps fl services tc input)
  unfolding tool_get_recent_traps
  tool_get_recent_traps-keeps input = search (keeps_rules, get_recent_traps-keeps tc.config_api)

  tool_rank_devices-keeps : (input : Object F) → Keeps P (tool_rank_devices fl services tc input)
  unfolding tool_rank_devices
  tool_rank_devices-keeps input =
      let table = input_string input "table" in
      let column = input_string input "column" in
      Keeps-ensured _ (
        Ensures-know_lift _ _ λ hours accepted. Ensures-know_lift _ _ λ mc known.
          Ensures-know (Answered fl services tc) _ _ (list_devices-Answered tc.config_api)
            λ ds answered.
              Ensures-then _ _
                (rank_all-keeps fl services tc table column mc known hours
                  (required_hours-IsBounded _ hours accepted) ds
                  (all-Listed ds ds answered (λ host h. h)))
                λ results. Ensures-keeps _ (Keeps-lift _))

  tool_query_metric-keeps : (input : Object F) → Keeps P (tool_query_metric fl services tc input)
  unfolding tool_query_metric
  tool_query_metric-keeps input =
      let table = input_string input "table" in
      let column = input_string input "column" in
      Keeps-ensured _ (
        Ensures-know_lift _ _ λ hours accepted. Ensures-know_lift _ _ λ mc known.
          Ensures-know (Answered fl services tc) _ _ (list_devices-Answered tc.config_api)
            λ ds answered. Ensures-know_lift _ _ λ dev found.
              let listed = found-Listed ds (input_string input "device") dev answered found in
              Ensures-then _ _
                (resolve_sub_filter-keeps fl services tc table column mc known dev.ip_address
                  (input_string input "sub_filter") listed)
                λ sub. Ensures-know_lift _ _ λ sql built.
                  Ensures-then _ _
                    (query-keeps fl services tc sql (
                      metric_query table column dev.ip_address sub
                        (input_string input "aggregation") mc hours input known listed
                        (required_hours-IsBounded _ hours accepted) built))
                    λ rows. Ensures-keeps _ (Keeps-pure _))

  pub execute_tool-keeps :
      (name : String) (input : Object F) → Keeps P (execute_tool fl services tc name input)
  unfolding execute_tool
  execute_tool-keeps name input = search (
    keeps_rules, tool_list_devices-keeps, tool_query_metric-keeps, tool_rank_devices-keeps,
    tool_get_recent_traps-keeps,
  )
