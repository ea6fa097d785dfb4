-- ===== src/ChatApi/Tools/Interfaces.antt =====
-- toolRankDevices of chat-api/tools.go on the columns of the interface table.
use beacon_v.Prelude.{
  String, Bool, true, false, ◌&&◌, not, Option, none, some, List, [], ◌∷◌, ◌==◌, ◌≡◌, refl, arith,
}
use mathlib.Core.Path.{subst}
use beacon_v.Exec.{ok, ◌>>=◌, attempt}
use beacon_v.Snmp.TrapNames.{lookup}
use beacon_v.ChatApi.Float.{Float}
use beacon_v.ChatApi.Services.{Object, Services, Chat, list_devices}
use beacon_v.ChatApi.Schema.{
  MetricColumn, Columns, interface_columns, lookup_column, known_column, entries_pass,
  lookup-entries_pass,
}
use beacon_v.ChatApi.Devices.{KnownDevice}
use beacon_v.ChatApi.Query.{input_string, input_float}
use beacon_v.ChatApi.SubFilter.{ToolContext, resolve_sub_filter}
use beacon_v.ChatApi.RankDevices.{rank_device, rank_all}
use beacon_v.ChatApi.Tools.{ranking, required_hours, unit_name, tool_rank_devices}

-- The column wants a sub-filter and has no default for it.
abbrev wants_filter : String → MetricColumn → Bool
wants_filter name mc = not (mc.sub_dimension == "") && mc.sub_dimension_default == ""

known-wants_filter :
    (name : String) (mc : MetricColumn) (cols : Columns) (o : Option MetricColumn)
    → lookup name cols ≡ o
    → entries_pass wants_filter cols ≡ true
    → known_column name o ≡ ok mc
    → wants_filter name mc ≡ true
known-wants_filter name mc cols none found all h = absurd (cc)
known-wants_filter name mc cols (some other) found all h =
    let same : other ≡ mc = cc in
    subst (λ x. wants_filter name x ≡ true) same
      (lookup-entries_pass wants_filter name cols other all found)

interface-wants_filter :
    (name : String) (mc : MetricColumn)
    → lookup_column "interface" name ≡ ok mc
    → wants_filter name mc ≡ true
unfolding lookup_column entries_pass lookup
interface-wants_filter name mc h =
    known-wants_filter name mc interface_columns (lookup name interface_columns) refl refl h

wants_filter-parts :
    (mc : MetricColumn)
    → wants_filter "" mc ≡ true
    → ((mc.sub_dimension == "") ≡ false) × ((mc.sub_dimension_default == "") ≡ true)
wants_filter-parts mc h = ground arith

module _ {F : Type 0} (fl : Float F) (services : Services F) (tc : ToolContext) where
  module _ (table column : String) (mc : MetricColumn) (hours : F)
      (filtered : (mc.sub_dimension == "") ≡ false)
      (bare : (mc.sub_dimension_default == "") ≡ true) where
    rank_device-skipped :
        (d : KnownDevice) (c : Chat)
        → rank_device fl services tc table column mc hours d c ≡ (ok none, c)
    unfolding rank_device resolve_sub_filter ◌>>=◌ attempt
    rank_device-skipped d c = rw (filtered, bare) refl

    rank_all-skipped :
        (ds : List KnownDevice) (c : Chat)
        → rank_all fl services tc table column mc hours ds c ≡ (ok [], c)
    unfolding rank_all ◌>>=◌
    rank_all-skipped [] c = refl
    rank_all-skipped (d ∷ ds) c = rw (rank_device-skipped d c, rank_all-skipped ds c) refl

  -- As long as the hours are accepted and the devices are listed, the tool ranks no device by a column
  -- of the interface table: whatever the devices, its ranking is empty, and no query was made.
  pub tool_rank_devices-interface :
      (input : Object F) (mc : MetricColumn) (hours : F) (devices : List KnownDevice) (c : Chat)
      → input_string input "table" ≡ "interface"
      → lookup_column "interface" (input_string input "column") ≡ ok mc
      → required_hours fl services tc (input_float input "hours") ≡ ok hours
      → (list_devices services tc.config_api c).0 ≡ ok devices
      → tool_rank_devices fl services tc input c ≡ (
        ok (
            ranking "interface"
              (input_string input "column")
              (unit_name fl services tc mc.kind)
              []),
        (list_devices services tc.config_api c).1,
      )
  unfolding tool_rank_devices ◌>>=◌
  tool_rank_devices-interface input mc hours devices c ht hc hh hd =
      let (filtered, bare) =
        wants_filter-parts mc (interface-wants_filter (input_string input "column") mc hc) in
      rw
        (
          ht,
          hh,
          hc,
          hd,
          rank_all-skipped "interface" (input_string input "column") mc hours filtered bare devices,
        )
        refl
