-- ===== src/Watcher/Reconcile.antt =====
-- Reconciliation of config-watcher/main.go writes telegraf.conf and reloads Telegraf only on a change.
use mathlib.Core.Path.{subst}
use beacon_v.Prelude.{
  parse_int, keep, Option-cases, inl, inr, not, ℕ, suc, String, Bool, true, false, Option, none,
  some, eq_iff, ◌≡◌, refl, ◌∙◌, List, ℤ, sym, ap, arith, if◌then◌else◌,
}
use beacon_v.Exec.{Result, ok, err, pure, or_fail, ◌>>=◌}
use beacon_v.Exec.Ensures.{
  Ensures, Ensures-bind, Ensures-keeps, Ensures-pure, Ensures-weaken, Ensures-fails, Ensures-given,
  Ensures-of, Post-map, Ensures-gets, Ensures-modify, Ensures-lift, Ensures-if, Ensures-or_fail,
  Post,
}
use beacon_v.World.{Error, World, Env, tick, call}
use beacon_v.World.Ticks.{IgnoresTicks, call-keeps}
use beacon_v.Crypto.{Key}
use beacon_v.Snmp.TrapNames.{lookup}
use beacon_v.Store.{Device, is_status, scan_all, statement}
use beacon_v.Store.Devices.{list_by_status}
use beacon_v.Store.Settings
use beacon_v.Store.Settings.{get-Post}
use beacon_v.ConfigApi.Settings.{polling_interval_key, atoi}
use beacon_v.Store.Preservation.{list_by_status-keeps}
use beacon_v.Watcher.Telegraf.{
  TelegrafTemplateData, InfluxConfig, render_telegraf_config, same_content, current_content,
  write_content, write_if_changed, reload_telegraf, reconcile_telegraf_config,
}

module _ (env : Env) (template : TelegrafTemplateData → Result Error String) (start : World) where
  -- The file, the reloads and the tables are those of `start`.
  abbrev Untouched : World → Type 0
  Untouched w =
      (w.conf ≡ start.conf)
      × (w.reloads ≡ start.reloads)
      × (w.settings ≡ start.settings)
      × (w.devices ≡ start.devices)

  abbrev Unloaded : World → Type 0
  Unloaded w = w.reloads ≡ start.reloads

  abbrev was : String → Bool
  was content = same_content env template start.conf content

  Untouched-ignores : IgnoresTicks Untouched
  Untouched-ignores w h = h

  calls : (answer : ℕ → Option Error) → Ensures Untouched (call answer) (λ _. Untouched) Untouched
  calls answer = Ensures-keeps (call answer) (call-keeps Untouched-ignores answer)

  current_content-Ensures :
      Ensures Untouched
        (current_content env template)
        (λ existing w. Untouched w × (existing ≡ start.conf))
        Unloaded
  unfolding current_content
  current_content-Ensures =
      Ensures-bind (λ _. Untouched) _ _
        (Ensures-or_fail _ _ (Ensures-fails (λ w h. h.1) (calls env.read_fault)))
        (λ _. Ensures-gets _ (λ w h. (h, h.0)))

  write_content-Ensures :
      (content : String)
      → Ensures Untouched
          (write_content env template content)
          (λ _ w. (w.conf ≡ some content) × (w.reloads ≡ start.reloads))
          Unloaded
  unfolding write_content
  write_content-Ensures content =
      Ensures-bind (λ _. Untouched) _ _
        (Ensures-or_fail _ _ (Ensures-fails (λ w h. h.1) (calls env.write_fault)))
        (λ _. Ensures-modify _ _ (λ w h. (refl, h.1)))

  -- The file holds `content` whether it was written or not, and the answer says which.
  abbrev Written : String → Bool → World → Type 0
  Written content changed w =
      (w.conf ≡ some content) × (w.reloads ≡ start.reloads) × (was content ≡ not changed)

  same_content-eq :
      (existing : Option String) (content : String)
      → same_content env template existing content ≡ true
      → existing ≡ some content
  same_content-eq none content h = absurd (ground arith)
  same_content-eq (some s) content h = ap some ((eq_iff s content).0 h)

  write_if_changed-Ensures :
      (content : String)
      → Ensures Untouched (write_if_changed env template content) (Written content) Unloaded
  unfolding write_if_changed
  write_if_changed-Ensures content =
      Ensures-bind (λ existing w. Untouched w × (existing ≡ start.conf)) _ _ current_content-Ensures
        λ existing. Ensures-given _ λ (read : existing ≡ start.conf).
          Ensures-if (same_content env template existing content) _ _
            (λ same. Ensures-pure false λ w h.
              (h.0 ∙ sym read ∙ same_content-eq existing content same, h.1, rw (← read) same))
            (λ different.
              Ensures-bind _ _ _ (write_content-Ensures content)
                (λ _. Ensures-pure true (λ w h. (h.0, h.1, rw (← read) different))))

  reload_telegraf-Ensures :
      (content : String)
      → Ensures
          (Written content true)
          (reload_telegraf env template)
          (λ _ w. (w.conf ≡ some content) × (w.reloads ≡ suc start.reloads) × (was content ≡ false))
          Unloaded
  unfolding reload_telegraf
  reload_telegraf-Ensures content =
      Ensures-bind (λ _. Written content true) _ _
        (Ensures-or_fail _ _
          (Ensures-fails (λ w h. h.1) (Ensures-keeps _ (call-keeps (λ w h. h) env.reload_fault))))
        (λ _. Ensures-modify _ _ (λ w h. (h.0, ap suc h.1, h.2)))

  -- The file after a reconciliation, and one reload if it was another before.
  pub record Reconciled (influx : InfluxConfig) (key : Key) (w : World) : Type 0 where
    pub interval_text : String
    pub stored : lookup polling_interval_key start.settings ≡ some interval_text
    pub interval : ℤ
    pub parsed : parse_int interval_text ≡ some interval
    pub devices : List Device
    pub active : scan_all (keep (is_status "active") start.devices) ≡ ok devices
    pub content : String
    pub rendered : render_telegraf_config env template interval influx devices key ≡ ok content
    pub conf_holds : w.conf ≡ some content
    pub reloads_count : w.reloads ≡ (
        if same_content env template start.conf content then start.reloads else suc start.reloads)

  module _ (influx : InfluxConfig) (key : Key) where
    reload_if-Reconciled :
        (text : String) (interval : ℤ) (devices : List Device) (content : String) (changed : Bool)
        → lookup polling_interval_key start.settings ≡ some text
        → parse_int text ≡ some interval
        → scan_all (keep (is_status "active") start.devices) ≡ ok devices
        → render_telegraf_config env template interval influx devices key ≡ ok content
        → Ensures
            (Written content changed)
            (if changed then reload_telegraf env template else pure tt)
            (λ _. Reconciled influx key)
            Unloaded
    reload_if-Reconciled text interval devices content true stored parsed active made =
        Ensures-weaken _ _
          (λ _ w h. record {
            interval_text = text;
            stored = stored;
            interval = interval;
            parsed = parsed;
            devices = devices;
            active = active;
            content = content;
            rendered = made;
            conf_holds = h.0;
            reloads_count = rw h.2 h.1;
          })
          (reload_telegraf-Ensures content)
    reload_if-Reconciled text interval devices content false stored parsed active made =
        Ensures-pure tt λ w h. record {
          interval_text = text;
          stored = stored;
          interval = interval;
          parsed = parsed;
          devices = devices;
          active = active;
          content = content;
          rendered = made;
          conf_holds = h.0;
          reloads_count = rw h.2 h.1;
        }

    setting-read :
        Ensures Untouched
          (Settings.get env polling_interval_key)
          (λ v w. Untouched w × (lookup polling_interval_key start.settings ≡ some v))
          Unloaded
    setting-read = record {
      after = λ w h.
          Post-map _ _ (λ v t. (lookup polling_interval_key w.settings ≡ some v) × (t ≡ tick w))
            (λ t. t ≡ tick w) _ _ (λ v q. (subst Untouched (sym q.1) h, rw h.2 at q.0))
            (λ same. subst Unloaded (sym same) h.1) (get-Post env polling_interval_key w);
    }

    listed_ok :
        (w : World) (ds : List Device)
        → (list_by_status env "active" w).0 ≡ ok ds
        → scan_all (keep (is_status "active") w.devices) ≡ ok ds
    unfolding list_by_status ◌>>=◌ or_fail
    listed_ok w ds e = elim (Option-cases (env.fault w.ticks)) [
      | inl works ↦ rw (works, statement) at e
      | inr (f, fails) ↦ absurd (let bad : err _ ≡ ok ds = rw (fails, statement) at e in cc)
    ]

    active-read :
        Ensures Untouched
          (list_by_status env "active")
          (λ ds w. Untouched w × (scan_all (keep (is_status "active") start.devices) ≡ ok ds))
          Unloaded
    active-read =
        Ensures-of _
          (λ w h ds e. (
            (list_by_status-keeps Untouched-ignores env "active").after w h,
            rw h.3 at (listed_ok w ds e),
          ))
          (λ w h. ((list_by_status-keeps Untouched-ignores env "active").after w h).1)

    atoi-some : (o : Option ℤ) (n : ℤ) → atoi o ≡ ok n → o ≡ some n
    atoi-some none n h = absurd (cc)
    atoi-some (some m) n h = cc

    reconcile-Ensures :
        Ensures Untouched
          (reconcile_telegraf_config env template influx key)
          (λ _. Reconciled influx key)
          Unloaded
    unfolding reconcile_telegraf_config
    reconcile-Ensures = Ensures-bind _ _ _ setting-read λ text. Ensures-given _ λ stored.
        Ensures-bind (λ interval w. Untouched w × (atoi (parse_int text) ≡ ok interval)) _ _
          (Ensures-lift _ (λ interval parsed w h. (h, parsed)) (λ w h. h.1))
          λ interval. Ensures-given _ λ parsed. Ensures-bind _ _ _ active-read λ devices.
            Ensures-given _ λ active.
              Ensures-bind
                (λ content w.
                  Untouched w
                  × (render_telegraf_config env template interval influx devices key ≡ ok content))
                _ _ (Ensures-lift _ (λ content made w h. (h, made)) (λ w h. h.1))
                λ content. Ensures-given _ λ made.
                  Ensures-bind _ _ _ (write_if_changed-Ensures content) (λ changed.
                    reload_if-Reconciled text interval devices content changed stored
                      (atoi-some (parse_int text) interval parsed) active made)

-- A reconciliation that succeeds leaves in the file the configuration rendered from
-- the stored interval and the active devices, and has reloaded Telegraf once if the
-- file had other content and not at all otherwise; one that fails has not reloaded it.
pub reconcile-Post :
    (env : Env) (template : TelegrafTemplateData → Result Error String) (influx : InfluxConfig)
    (key : Key) (w : World)
    → Post
        (λ _. Reconciled env template w influx key)
        (λ v. v.reloads ≡ w.reloads)
        (reconcile_telegraf_config env template influx key w).0
        (reconcile_telegraf_config env template influx key w).1
reconcile-Post env template influx key w =
    (reconcile-Ensures env template w influx key).after w (refl, refl, refl, refl)
