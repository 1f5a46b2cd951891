-- ===== src/Sui/Events.antt =====
-- internal/parser/dexs/suidex: the Sui events of a transaction and the texts that both extractors
-- read off them.
use chain_parse_service.Base.{String, Option, none, some, List, [], ◌∷◌, map, str_eq, if◌then◌else◌}
use chain_parse_service.Base.Dict.{Dict, lookup}
use chain_parse_service.Base.Int.{ℤ, pos}
use chain_parse_service.Base.Strings.{join}
use chain_parse_service.Common.{
  Field, text, Events, parse_events_from_interface, get_string_field, Numbers, or_zero,
}
use chain_parse_service.Types.{UnifiedTransaction}

-- A value of the map of an event; `other` is nil or a value of another type.
pub data EventValue (F : Type 0) : Type 0 where
  plain : String → EventValue F
  fields : Dict (Field F) → EventValue F
  other : EventValue F

abbrev pub Event : Type 0 → Type 0
Event F = Dict (EventValue F)

-- An event of `models.SuiTransactionBlockResponse`.
pub record SuiEvent (F : Type 0) : Type 0 where
  pub event_type : String
  pub sender : String
  pub parsed_json : Dict (Field F)
  pub package_id : String
  pub transaction_module : String
  pub event_seq : String
  pub tx_digest : String

-- `RawData` by its dynamic type: nil, the response with its events (none of a nil pointer), a map
-- with its key `events`, or another type.
pub data SuiRaw (F : Type 0) : Type 0 where
  raw_nil : SuiRaw F
  response : List (SuiEvent F) → SuiRaw F
  raw_map : Option (Events (Event F)) → SuiRaw F
  raw_other : SuiRaw F

-- A transaction with its raw data as the Sui extractors read it, and a block of such.
pub record SuiTransaction (F : Type 0) : Type 0 where
  pub base : UnifiedTransaction
  pub raw : SuiRaw F

pub record SuiBlock (F : Type 0) : Type 0 where
  pub chain_type : String
  pub transactions : List (SuiTransaction F)

-- What `json.Marshal` and `json.Unmarshal` make of raw data that is no map: the key `events` of the
-- result, or `none` also for an error.
abbrev pub ThroughJson : Type 0 → Type 0
ThroughJson F = SuiRaw F → Option (Events (Event F))

abbrev or_empty : Option String → String
or_empty none = ""
or_empty (some s) = s

module _ {F : Type 0} where
  abbrev id_entry : SuiEvent F → Event F
  id_entry ev =
      if str_eq ev.event_seq ""
      then []
      else ("id", fields (("eventSeq", text ev.event_seq) ∷ ("txDigest", text ev.tx_digest) ∷ []))
        ∷ []

  unfoldable pub event_of : SuiEvent F → Event F
  event_of ev =
      ("type", plain ev.event_type)
      ∷ ("sender", plain ev.sender)
      ∷ ("parsedJson", fields ev.parsed_json)
      ∷ ("packageId", plain ev.package_id)
      ∷ ("transactionModule", plain ev.transaction_module)
      ∷ id_entry ev

  abbrev pub events_of_key : Option (Events (Event F)) → List (Event F)
  events_of_key none = []
  events_of_key (some events) = parse_events_from_interface events

  -- extractSuiEventsFromTransaction of Bluefin.
  unfoldable pub bluefin_events : SuiRaw F → List (Event F)
  unfolding event_of parse_events_from_interface
  bluefin_events raw_nil = []
  bluefin_events (response events) = map event_of events
  bluefin_events (raw_map events) = events_of_key events
  bluefin_events raw_other = []

  -- extractSuiEventsFromTransaction of Cetus.
  unfoldable pub cetus_events : ThroughJson F → SuiRaw F → List (Event F)
  unfolding parse_events_from_interface
  cetus_events json (raw_map events) = events_of_key events
  cetus_events json raw = events_of_key (json raw)

  abbrev plain_text : Option (EventValue F) → Option String
  plain_text (some (plain s)) = some s
  plain_text _ = none

  -- `event["type"].(string)`
  unfoldable pub event_type_of : Event F → Option String
  unfolding lookup
  event_type_of event = plain_text (lookup "type" event)

  abbrev fields_of : Option (EventValue F) → Option (Dict (Field F))
  fields_of (some (fields fs)) = some fs
  fields_of _ = none

  -- `event["parsedJson"]` where it is a map.
  unfoldable pub parsed_json_of : Event F → Option (Dict (Field F))
  unfolding lookup
  parsed_json_of event = fields_of (lookup "parsedJson" event)

  abbrev seq_of : Option (Dict (Field F)) → String
  seq_of none = ""
  seq_of (some id) = get_string_field id "eventSeq"

  unfoldable pub extract_event_seq : Event F → String
  unfolding lookup get_string_field
  extract_event_seq event = seq_of (fields_of (lookup "id" event))

  unfoldable pub extract_sender : Event F → String
  unfolding lookup
  extract_sender event = or_empty (plain_text (lookup "sender" event))

  unfoldable pub parse_event_seq : Numbers F → String → ℤ
  parse_event_seq lib event_seq =
      if str_eq event_seq "" then pos 0 else or_zero (lib.parse_int event_seq)

-- The key of a row of liquidity.
unfoldable pub liquidity_key : String → String → String → String → String
unfolding join
liquidity_key hash side event_seq suffix =
    join hash (join "_" (join side (join "_" (join event_seq suffix))))
