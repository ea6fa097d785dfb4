-- ===== src/Examples/Chat.antt =====
-- A model, services and numbers for chat-api.
use beacon_v.Prelude.{ℕ, ◌*◌, ◌/◌, true, none, some, [], ◌∷◌, ◌==◌, ltb, leb, arith}
use beacon_v.Exec.{Result, ok}
use beacon_v.World.{Error}
use beacon_v.ChatApi.Float.{Float}
use beacon_v.ChatApi.Devices.{KnownDevice}
use beacon_v.ChatApi.Services.{string, float, Object, Response, Services, Chat}
use beacon_v.ChatApi.SubFilter.{ToolContext}
use beacon_v.ChatApi.Rank.Falling.{IsOrdered}
use beacon_v.ChatApi.Gemini.{Part, GeminiResponse, GeminiClient, Model, text_part}

-- Whole numbers, of which none is infinite.
abbrev pub whole : Float ℕ
whole = record {
  of_nat = λ n. n;
  le = leb;
  lt = ltb;
  times = λ x y. x * y;
  over = λ x y. x / y;
  show = λ n. "1";
  hours_duration = λ h. h * 3600000000000;
  is_finite = λ _. true;
}

pub whole-IsOrdered : IsOrdered whole
whole-IsOrdered = record {
  lt_asym = λ x y hx hy h. ground arith;
  le_trans = λ x y z hx hy hz h k. ground arith;
}

abbrev answered : {A : Type 0} → A → Result Error (Response A)
answered a = ok (record { status = 200; body = ok ""; decoded = ok a })

abbrev pub router : KnownDevice
router = record { hostname = "R1"; ip_address = "10.0.0.1"; status = "active"; group_name = "" }

abbrev pub cpu_row : Object ℕ
cpu_row = ("result", float 7) ∷ []

abbrev pub sample_services : Services ℕ
sample_services = record {
  get_devices = λ _ _. answered (router ∷ []);
  get_traps = λ _ _. answered [];
  post_query = λ _ _. answered (cpu_row ∷ []);
  now = λ n. n;
  parse_time = λ _. none;
  trim_space = λ s. s;
  to_lower = λ s. s;
  equal_fold = λ s t. s == t;
}

abbrev pub sample_context : ToolContext
sample_context = record {
  influx = record { url = "http://influxdb:8181"; token = ""; database = "network_monitor" };
  config_api = record { base_url = "http://config-api:8080" };
}

abbrev call_cpu : Part ℕ
call_cpu = record {
  text = "";
  function_call = some (record {
    name = "query_metric";
    args =
        ("table", string "cpu")
        ∷ ("column", string "cpu1min")
        ∷ ("aggregation", string "avg")
        ∷ ("device", string "R1")
        ∷ ("hours", float 1)
        ∷ [];
  });
  function_response = none;
}

abbrev says : Part ℕ → GeminiResponse ℕ
says part = record { candidates = record { role = "model"; parts = part ∷ [] } ∷ []; error = none }

-- It asks for the CPU load of R1 once, then answers.
abbrev pub sample_model : Model ℕ
sample_model n _ = elim (ltb n 1) [
  | true ↦ answered (says call_cpu)
  | _ ↦ answered (says (text_part "7 percent"))
]

abbrev pub sample_client : GeminiClient
sample_client = record { api_key = "key"; model = "gemini-2.5-flash" }

abbrev pub no_chat : Chat
no_chat = record { queries = []; asked = 0; ticks = 0 }
