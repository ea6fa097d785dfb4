-- ===== src/ChatApi/Devices.antt =====
-- chat-api/devices.go: the device that a caller's text means.
use beacon_v.Prelude.{
  String, Bool, true, Option, none, some, List, [], ◌∷◌, ◌++◌, ◌==◌, has_prefix, keep,
  if◌then◌else◌, ◌≡◌, refl, sym, ap, ◌∙◌, Bool-cases, inl, inr,
}
use beacon_v.Exec.{Result, ok, err}
use beacon_v.World.{Error, message}

pub record KnownDevice : Type 0 where
  pub hostname : String
  pub ip_address : String
  pub status : String
  pub group_name : String

unfoldable pub first_device : (KnownDevice → Bool) → List KnownDevice → Option KnownDevice
first_device test [] = none
first_device test (d ∷ ds) = let rest = first_device test ds in if test d then some d else rest

-- The texts of the errors name the reference as well.
abbrev pub ambiguous : Error
ambiguous = message "matches more than one device, be more specific"

abbrev pub no_match : Error
no_match = message "no known device matches -- call list_devices to see what's monitored"

abbrev pub only_match : List KnownDevice → Result Error KnownDevice
only_match [] = err no_match
only_match (d ∷ []) = ok d
only_match (d ∷ e ∷ ds) = err ambiguous

abbrev pub or_by_prefix : Option KnownDevice → List KnownDevice → Result Error KnownDevice
or_by_prefix (some d) matches = ok d
or_by_prefix none matches = only_match matches

abbrev pub or_by_name :
    Option KnownDevice → Option KnownDevice → List KnownDevice → Result Error KnownDevice
or_by_name (some d) by_name matches = ok d
or_by_name none by_name matches = or_by_prefix by_name matches

abbrev pub has_address : String → KnownDevice → Bool
has_address ref d = d.ip_address == ref

-- The Unicode tables behind `strings.TrimSpace`, `ToLower` and `EqualFold` are parameters.
module _ (trim_space to_lower : String → String) (equal_fold : String → String → Bool) where
  abbrev pub has_name : String → KnownDevice → Bool
  has_name ref d = equal_fold d.hostname ref

  abbrev pub has_name_prefix : String → KnownDevice → Bool
  has_name_prefix ref d = has_prefix (to_lower ref) (to_lower d.hostname)

  unfoldable pub resolve_device : List KnownDevice → String → Result Error KnownDevice
  unfolding first_device has_prefix
  resolve_device devices text =
      let ref = trim_space text in
      or_by_name (first_device (has_address ref) devices) (first_device (has_name ref) devices)
        (keep (has_name_prefix ref) devices)

-- `d` passes the test and nothing before it does.
pub record First (test : KnownDevice → Bool) (d : KnownDevice) (devices : List KnownDevice)
    : Type 0 where
  pub before : List KnownDevice
  pub after : List KnownDevice
  pub split : devices ≡ before ++ d ∷ after
  pub passes : test d ≡ true
  pub earlier : keep test before ≡ []

-- What a reference may come to: the tests are those of the address, the name and the prefix.
pub data Outcome (address name prefix : KnownDevice → Bool) (devices : List KnownDevice)
    : Result Error KnownDevice → Type 0 where
  by_address :
      {d : KnownDevice} → First address d devices → Outcome address name prefix devices (ok d)
  by_name :
      {d : KnownDevice}
      → keep address devices ≡ []
      → First name d devices
      → Outcome address name prefix devices (ok d)
  by_prefix :
      {d : KnownDevice}
      → keep address devices ≡ []
      → keep name devices ≡ []
      → keep prefix devices ≡ d ∷ []
      → Outcome address name prefix devices (ok d)
  several :
      {d e : KnownDevice} {ds : List KnownDevice}
      → keep address devices ≡ []
      → keep name devices ≡ []
      → keep prefix devices ≡ d ∷ e ∷ ds
      → Outcome address name prefix devices (err ambiguous)
  unknown :
      keep address devices ≡ []
      → keep name devices ≡ []
      → keep prefix devices ≡ []
      → Outcome address name prefix devices (err no_match)

first_device-none :
    (test : KnownDevice → Bool) (ds : List KnownDevice)
    → first_device test ds ≡ none
    → keep test ds ≡ []
unfolding first_device
first_device-none test [] h = refl
first_device-none test (d ∷ ds) h = elim (Bool-cases (test d)) [
  | inl pass ↦ absurd (let bad : some d ≡ none = rw pass at h in cc)
  | inr fail ↦ rw fail (first_device-none test ds (rw fail at h))
]

first_device-First :
    (test : KnownDevice → Bool) (ds : List KnownDevice) (d : KnownDevice)
    → first_device test ds ≡ some d
    → First test d ds
unfolding first_device
first_device-First test [] d h = absurd (cc)
first_device-First test (e ∷ ds) d h = elim (Bool-cases (test e)) [
  | inl pass ↦
      let value : some e ≡ some d = rw pass at h in
      let same : e ≡ d = cc in
      record {
        before = [];
        after = ds;
        split = ap (λ x. x ∷ ds) same;
        passes = ap test (sym same) ∙ pass;
        earlier = refl;
      }
  | inr fail ↦
      let found = first_device-First test ds d (rw fail at h) in
      record {
        before = e ∷ found.before;
        after = found.after;
        split = ap (λ x. e ∷ x) found.split;
        passes = found.passes;
        earlier = rw fail found.earlier;
      }
]

matches-Outcome :
    (address name prefix : KnownDevice → Bool) (devices matches : List KnownDevice)
    → keep address devices ≡ []
    → keep name devices ≡ []
    → keep prefix devices ≡ matches
    → Outcome address name prefix devices (only_match matches)
matches-Outcome address name prefix devices [] ha hn hp = unknown ha hn hp
matches-Outcome address name prefix devices (d ∷ []) ha hn hp = by_prefix ha hn hp
matches-Outcome address name prefix devices (d ∷ e ∷ ds) ha hn hp = several ha hn hp

name-Outcome :
    (address name prefix : KnownDevice → Bool) (devices : List KnownDevice) (o : Option KnownDevice)
    → first_device name devices ≡ o
    → keep address devices ≡ []
    → Outcome address name prefix devices (or_by_prefix o (keep prefix devices))
name-Outcome address name prefix devices (some d) hn ha =
    by_name ha (first_device-First name devices d hn)
name-Outcome address name prefix devices none hn ha =
    matches-Outcome address name prefix devices (keep prefix devices) ha
      (first_device-none name devices hn) refl

address-Outcome :
    (address name prefix : KnownDevice → Bool) (devices : List KnownDevice) (o : Option KnownDevice)
    → first_device address devices ≡ o
    → Outcome address name prefix devices
        (or_by_name o (first_device name devices) (keep prefix devices))
address-Outcome address name prefix devices (some d) ha =
    by_address (first_device-First address devices d ha)
address-Outcome address name prefix devices none ha =
    name-Outcome address name prefix devices (first_device name devices) refl
      (first_device-none address devices ha)

-- Whatever text the caller passes, resolveDevice, after trimming it, answers with a known
-- device: the first with this address, else the first with this name in any case, else the only
-- one whose name begins with the text in any case; if there is none it fails, in one way when
-- several names begin with the text, in another when none does.
pub resolve_device-Outcome :
    (trim_space to_lower : String → String) (equal_fold : String → String → Bool)
    (devices : List KnownDevice) (text : String)
    → Outcome
        (has_address (trim_space text))
        (has_name trim_space to_lower equal_fold (trim_space text))
        (has_name_prefix trim_space to_lower equal_fold (trim_space text))
        devices
        (resolve_device trim_space to_lower equal_fold devices text)
unfolding resolve_device
resolve_device-Outcome trim_space to_lower equal_fold devices text =
    address-Outcome (has_address (trim_space text))
      (has_name trim_space to_lower equal_fold (trim_space text))
      (has_name_prefix trim_space to_lower equal_fold (trim_space text)) devices
      (first_device (has_address (trim_space text)) devices) refl
