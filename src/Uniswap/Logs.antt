-- ===== src/Uniswap/Logs.antt =====
-- internal/parser/dexs/utils.go: ExtractEVMLogsFromTransaction and ParseEVMLogsFromInterface; and
-- internal/parser/dexs/eth/uniswap.go: isUniswapLog and getLogType.
use chain_parse_service.Base.{
  ℕ, ◌+◌, ◌≡◌, String, Bool, true, false, ◌||◌, Option, none, some, List, [], ◌∷◌, str_eq,
  if◌then◌else◌, arith, map, ◌≢◌, ◌↔◌,
}
use chain_parse_service.Types.{
  EthLog, LogMap, JsonLogs, json_array, json_other, RawData, raw_nil, raw_map, raw_receipt,
  raw_logs, raw_solana, raw_other,
}

-- go-ethereum's `common`: hexadecimal texts of hashes and addresses, and back.
pub record EthLib : Type 0 where
  pub hash_hex : List ℕ → String
  pub address_hex : List ℕ → String
  pub hex_to_address : String → List ℕ
  pub hex_to_hash : String → List ℕ
  pub from_hex : String → List ℕ
  pub zero_address : List ℕ
  pub zero_hash : List ℕ

abbrev pub or_default {ℓ} : {A : Type ℓ} → A → Option A → A
or_default d none = d
or_default d (some a) = a

module _ (lib : EthLib) where
  abbrev pick_index : Option ℕ → Option ℕ → ℕ → ℕ
  pick_index (some i) _ idx = i
  pick_index none o idx = or_default idx o

  abbrev topic_of : Option String → List ℕ
  topic_of none = lib.zero_hash
  topic_of (some t) = lib.hex_to_hash t

  abbrev address_of : Option String → List ℕ
  address_of none = lib.zero_address
  address_of (some a) = lib.hex_to_address a

  abbrev bytes_of : Option String → List ℕ
  bytes_of none = []
  bytes_of (some d) = lib.from_hex d

  unfoldable pub parse_log : ℕ → LogMap → EthLog
  parse_log idx m = record {
    address = address_of m.address;
    topics = map topic_of (or_default [] m.topics);
    bytes = bytes_of m.bytes;
    index = pick_index m.log_index m.log_index_snake idx;
  }

  -- An element that is no object is left out, but counts for the index of the later ones.
  unfoldable pub parse_logs_from : ℕ → List (Option LogMap) → List EthLog
  parse_logs_from idx [] = []
  parse_logs_from idx (none ∷ items) = parse_logs_from (idx + 1) items
  parse_logs_from idx (some m ∷ items) = parse_log idx m ∷ parse_logs_from (idx + 1) items

  -- `none` is the nil slice.
  unfoldable pub parse_evm_logs : JsonLogs → Option (List EthLog)
  parse_evm_logs (json_array items) = some (parse_logs_from 0 items)
  parse_evm_logs json_other = none

  abbrev receipt_logs : Option (Option (List EthLog)) → List EthLog
  receipt_logs none = []
  receipt_logs (some r) = or_default [] r

  abbrev logs_or_receipt : Option (List EthLog) → Option (Option (List EthLog)) → List EthLog
  logs_or_receipt (some logs) receipt = logs
  logs_or_receipt none receipt = receipt_logs receipt

  unfoldable pub extract_evm_logs : RawData → List EthLog
  unfolding parse_evm_logs
  extract_evm_logs raw_nil = []
  extract_evm_logs (raw_map none receipt) = receipt_logs receipt
  extract_evm_logs (raw_map (some logs) receipt) = logs_or_receipt (parse_evm_logs logs) receipt
  extract_evm_logs (raw_receipt r) = or_default [] r
  extract_evm_logs (raw_logs logs) = logs
  extract_evm_logs (raw_solana m) = []
  extract_evm_logs raw_other = []

abbrev pub swap_v2_event_sig : String
swap_v2_event_sig = "0xd78ad95fa46c994b6551d0da85fc275fe613ce37657fb8d5e3d130840159d822"

abbrev pub swap_v3_event_sig : String
swap_v3_event_sig = "0xc42079f94a6350d7e6235f29174924f928cc2ac818eb64fed8004e115fbcca67"

abbrev pub mint_v2_event_sig : String
mint_v2_event_sig = "0x4c209b5fc8ad50758f13e2e1088ba56a560dff690a1c6fef26394f4c03821c4f"

abbrev pub burn_v2_event_sig : String
burn_v2_event_sig = "0xdccd412f0b1252819cb1fd330b93224ca42612892bb3f4f789976e6d81936496"

abbrev pub mint_v3_event_sig : String
mint_v3_event_sig = "0x7a53080ba414158be7ec69b987b5fb7d07dee101fe85488f0853ae16239d0bde"

abbrev pub burn_v3_event_sig : String
burn_v3_event_sig = "0x0c396cd989a39f4459b5fa1aed6a9a8dcdbc45908acfd67e028cd568da98982c"

abbrev pub sync_v2_event_sig : String
sync_v2_event_sig = "0x1c411e9a96e071241c2f21f7726b17ae89e3cab4c78be50e062b03a9fffbbad1"

abbrev pub pair_created_event_sig : String
pair_created_event_sig = "0x0d3648bd0f6ba80134a33ba9275ac585d9d315f0ad8355cddefde31afa28d0e9"

abbrev pub pool_created_event_sig : String
pool_created_event_sig = "0x783cca1c0412dd0d695e784568c96da2e9c22ff989357a2e8b1d9b2b4e6b7118"

-- The texts that getLogType returns; `unknown` is the empty one.
pub data LogType : Type 0 where
  swap_v2 swap_v3 mint burn sync pair_created pool_created unknown : LogType

unfoldable pub type_of_topic : String → LogType
type_of_topic t =
    if str_eq t swap_v2_event_sig
    then swap_v2
    else if str_eq t swap_v3_event_sig
    then swap_v3
    else if str_eq t mint_v2_event_sig || str_eq t mint_v3_event_sig
    then mint
    else if str_eq t burn_v2_event_sig || str_eq t burn_v3_event_sig
    then burn
    else if str_eq t sync_v2_event_sig
    then sync
    else if str_eq t pair_created_event_sig
    then pair_created
    else if str_eq t pool_created_event_sig
    then pool_created
    else unknown

unfoldable pub is_uniswap_topic : String → Bool
is_uniswap_topic t =
    str_eq t swap_v2_event_sig
    || (str_eq t swap_v3_event_sig
        || (str_eq t mint_v2_event_sig
            || (str_eq t burn_v2_event_sig
                || (str_eq t mint_v3_event_sig
                    || (str_eq t burn_v3_event_sig
                        || (str_eq t sync_v2_event_sig
                            || (str_eq t pair_created_event_sig
                                || str_eq t pool_created_event_sig)))))))

module _ (lib : EthLib) where
  unfoldable pub is_uniswap_log : List (List ℕ) → Bool
  unfolding is_uniswap_topic
  is_uniswap_log [] = false
  is_uniswap_log (t ∷ _) = is_uniswap_topic (lib.hash_hex t)

  unfoldable pub get_log_type : List (List ℕ) → LogType
  unfolding type_of_topic
  get_log_type [] = unknown
  get_log_type (t ∷ _) = type_of_topic (lib.hash_hex t)

is_uniswap_topic-type_of_topic :
    (t : String) → (is_uniswap_topic t ≡ true) ↔ (type_of_topic t ≢ unknown)
unfolding is_uniswap_topic type_of_topic
is_uniswap_topic-type_of_topic t = ground arith
