-- ===== src/Server/Listing.antt =====
-- internal/server/server.go, modelInfos: what the listing says that a model supports.
pub mod Honest
use llm_pico.Common.{
  List, Option, Bool, if◌then◌else◌, false, true, ◌∷◌, ◌||◌, ◌&&◌, some, not, [], none,
}
use llm_pico.Common.Bytes.{assign, Bytes, bytes_eq}
use llm_pico.Config.{ModelEntry, slots}

-- `httpx.ModelInfo`.
pub record ModelInfo : Type 0 where
  pub id : Bytes
  pub images : Bool
  pub audio : Bool
  pub video : Bool
  pub thinking : Bool
  pub tools : Bool
  pub reasoning : Bool

abbrev pub is_filled {ℓ} : {A : Type ℓ} → List A → Bool
is_filled [] = false
is_filled (x ∷ xs) = true

-- The loop over the slots of a model.
unfoldable pub with_slots : ModelInfo → List ModelEntry → ModelInfo
with_slots info [] = info
with_slots info (e ∷ es) =
    with_slots
      (record info {
        images = info.images || e.images;
        audio = info.audio || e.audio;
        video = info.video || e.video;
        thinking = info.thinking || e.thinking;
        tools = info.tools && e.tools;
        reasoning = info.reasoning && e.reasoning;
      })
      es

-- `RecordCapability` and `Capability`, of the support of tools that a probe found.
abbrev pub Probes : Type 0
Probes = Bytes → Option Bool

unfoldable pub record_capability : Probes → Bytes → Bool → Probes
record_capability probes model supports_tools =
    if bytes_eq model [] then probes else assign probes model (some supports_tools)

abbrev pub is_denied : Option Bool → Bool
is_denied none = false
is_denied (some supports_tools) = not supports_tools

-- `modelInfos`, for one name.
unfoldable pub model_info : List ModelEntry → Probes → Bytes → ModelInfo
model_info models probes name =
    let es = slots models name in
    let info =
      with_slots
        (record {
          id = name;
          images = false;
          audio = false;
          video = false;
          thinking = false;
          tools = is_filled es;
          reasoning = is_filled es;
        })
        es in
    if is_denied (probes name) then record info { tools = false } else info

-- `getModel`: the listing of one model; none is its answer that there is no such model.
unfoldable pub get_model : List ModelEntry → Probes → Bytes → Option ModelInfo
get_model models probes id =
    if is_filled (slots models id) then some (model_info models probes id) else none
