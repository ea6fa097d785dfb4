-- ===== src/ChatApi/Query/Alike.antt =====
-- The WHERE clauses of chat-api/tools.go: texts that differ in their literals only.
use beacon_v.Prelude.{
  String, Bool, true, false, ◌<>◌, ◌==◌, ◌≡◌, refl, sym, ap, ◌∙◌, Bool-cases, inl, inr,
}
use beacon_v.ChatApi.Float.{Float}
use beacon_v.ChatApi.Schema.{MetricColumn, is_word}
use beacon_v.ChatApi.Sql.{sql_quote}
use beacon_v.ChatApi.Query.{where_text}
use beacon_v.ChatApi.Query.Skeleton.{
  Mode, outside, inside, pending, mode_after, skeleton_from, mode_after-append, skeleton-append,
  quoted-mode, quoted-skeleton, word-mode,
}

-- Two texts that a reader of SQL, who stands at `m`, cannot tell apart but by their literals.
pub record Alike (m : Mode) (s t : String) : Type 0 where
  pub same_mode : mode_after m s ≡ mode_after m t
  pub same_skeleton : skeleton_from m s ≡ skeleton_from m t

pub Alike-refl : (m : Mode) (s : String) → Alike m s s
Alike-refl m s = record { same_mode = refl; same_skeleton = refl }

pub Alike-append :
    (m n : Mode) (s t s' t' : String)
    → mode_after m s ≡ n
    → Alike m s t
    → Alike n s' t'
    → Alike m (s <> s') (t <> t')
Alike-append m n s t s' t' e first second =
    let there : mode_after m t ≡ n = sym first.same_mode ∙ e in
    record {
      same_mode =
          mode_after-append m s s'
          ∙ ap (λ k. mode_after k s') e
          ∙ second.same_mode
          ∙ sym (mode_after-append m t t' ∙ ap (λ k. mode_after k t') there);
      same_skeleton =
          skeleton-append m s s'
          ∙ ap (λ k. skeleton_from m s <> skeleton_from k s') e
          ∙ ap (λ x. skeleton_from m s <> x) second.same_skeleton
          ∙ ap (λ x. x <> skeleton_from n t') first.same_skeleton
          ∙ sym (skeleton-append m t t' ∙ ap (λ k. skeleton_from m t <> skeleton_from k t') there);
    }

-- Behind the same text.
pub Alike-behind :
    (m n : Mode) (p s t : String) → mode_after m p ≡ n → Alike n s t → Alike m (p <> s) (p <> t)
Alike-behind m n p s t e h = Alike-append m n p p s t e (Alike-refl m p) h

Alike-quoted : (s t : String) → Alike outside (sql_quote s) (sql_quote t)
Alike-quoted s t = record {
  same_mode = quoted-mode s ∙ sym (quoted-mode t);
  same_skeleton = quoted-skeleton s ∙ sym (quoted-skeleton t);
}

pub word-outside : (s : String) → is_word s ≡ true → mode_after outside s ≡ outside
unfolding is_word
word-outside s h = word-mode s h

-- `%g` writes no quotes: it stays inside the literal that it is put in.
pub record WritesNoQuote {F : Type 0} (fl : Float F) : Type 0 where
  pub stays : (x : F) → mode_after inside (fl.show x) ≡ inside

module _ {F : Type 0} (fl : Float F) (plain : WritesNoQuote fl) (mc : MetricColumn)
    (hours : F) where
  interval-mode :
      mode_after pending (" AND time >= now() - INTERVAL '" <> fl.show hours <> " hours'") ≡ pending
  unfolding mode_after
  interval-mode =
      mode_after-append pending " AND time >= now() - INTERVAL '" (fl.show hours <> " hours'")
      ∙ mode_after-append inside (fl.show hours) " hours'"
      ∙ ap (λ k. mode_after k " hours'") (plain.stays hours)

  abbrev bounded : String → String
  bounded host =
      "agent_host = "
      <> sql_quote host
      <> " AND time >= now() - INTERVAL '"
      <> fl.show hours
      <> " hours'"

  bounded-mode : (host : String) → mode_after outside (bounded host) ≡ pending
  unfolding mode_after
  bounded-mode host =
      mode_after-append outside "agent_host = "
        (sql_quote host <> " AND time >= now() - INTERVAL '" <> fl.show hours <> " hours'")
      ∙ mode_after-append outside (sql_quote host)
          (" AND time >= now() - INTERVAL '" <> fl.show hours <> " hours'")
      ∙ ap (λ k. mode_after k (" AND time >= now() - INTERVAL '" <> fl.show hours <> " hours'"))
          (quoted-mode host)
      ∙ interval-mode

  bounded-Alike : (host host' : String) → Alike outside (bounded host) (bounded host')
  unfolding mode_after
  bounded-Alike host host' = Alike-behind outside outside "agent_host = " _ _ refl (
      Alike-append outside pending _ _ _ _ (quoted-mode host) (Alike-quoted host host')
        (Alike-refl pending _))

  filter-Alike :
      (sub sub' : String)
      → is_word mc.sub_dimension ≡ true
      → Alike pending
          (" AND \"" <> mc.sub_dimension <> "\" = " <> sql_quote sub)
          (" AND \"" <> mc.sub_dimension <> "\" = " <> sql_quote sub')
  unfolding mode_after
  filter-Alike sub sub' word = Alike-behind pending outside " AND \"" _ _ refl (
      Alike-behind outside outside mc.sub_dimension _ _ (word-outside _ word)
        (Alike-behind outside outside "\" = " _ _ refl (Alike-quoted sub sub')))

  abbrev with_filter : Bool → String → String → String
  with_filter true sub prefix = prefix
  with_filter false sub prefix = prefix <> " AND \"" <> mc.sub_dimension <> "\" = " <> sql_quote sub

  with_filter-Alike :
      (b : Bool) (host host' sub sub' : String)
      → is_word mc.sub_dimension ≡ true
      → Alike outside (with_filter b sub (bounded host)) (with_filter b sub' (bounded host'))
  with_filter-Alike true host host' sub sub' word = bounded-Alike host host'
  with_filter-Alike false host host' sub sub' word =
      Alike-append outside pending _ _ _ _ (bounded-mode host) (bounded-Alike host host')
        (filter-Alike sub sub' word)

  pub where-Alike :
      (host host' sub sub' : String)
      → is_word mc.sub_dimension ≡ true
      → (sub == "") ≡ (sub' == "")
      → Alike outside (where_text fl mc host sub hours) (where_text fl mc host' sub' hours)
  unfolding where_text
  where-Alike host host' sub sub' word same = elim (Bool-cases (sub == "")) [
    | inl empty ↦
        let empty' : (sub' == "") ≡ true = sym same ∙ empty in
        rw (empty, empty') (with_filter-Alike true host host' sub sub' word)
    | inr named ↦
        let named' : (sub' == "") ≡ false = sym same ∙ named in
        rw (named, named') (with_filter-Alike false host host' sub sub' word)
  ]
