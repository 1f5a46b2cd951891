-- ===== src/Solana/Events.antt =====
-- internal/parser/dexs/solana_extractor.go: ExtractSolanaEventData and toStringSlice.
use Prim.Native.Char.{code}
use chain_parse_service.Base.{
  ℕ, String, ◌==◌, Option, none, some, List, [], ◌∷◌, leb, length, if◌then◌else◌,
}
use chain_parse_service.Types.{
  UnifiedTransaction, Texts, texts, items, other_texts, SolanaMeta, RawData, raw_solana,
}
use chain_parse_service.Solana.Borsh.{SolanaLib}

abbrev texts_of : List (Option String) → List String
texts_of [] = []
texts_of (none ∷ xs) = texts_of xs
texts_of (some s ∷ xs) = s ∷ texts_of xs

unfoldable pub to_string_slice : Texts → List String
to_string_slice (texts xs) = xs
to_string_slice (items xs) = texts_of xs
to_string_slice other_texts = []

abbrev first_of : Option Texts → Option Texts → List String
first_of (some t) o = to_string_slice t
first_of none (some t) = to_string_slice t
first_of none none = []

abbrev of_meta : Option (Option SolanaMeta) → List String
of_meta (some (some m)) = first_of m.camel_case m.snake_case
of_meta _ = []

abbrev of_map : Option Texts → Option Texts → Option (Option SolanaMeta) → List String
of_map none none meta = of_meta meta
of_map a b meta = first_of a b

-- The log messages of a transaction.
unfoldable pub log_messages_of : RawData → List String
unfolding to_string_slice
log_messages_of (raw_solana m) = of_map m.log_messages m.log_messages_camel m.meta
log_messages_of _ = []

-- The text after a prefix, or `none` where it has another beginning.
unfoldable pub after_prefix : String → String → Option String
after_prefix String.[] s = some s
after_prefix (String.◌∷◌ p ps) String.[] = none
after_prefix (String.◌∷◌ p ps) (String.◌∷◌ c s) =
    let rest = after_prefix ps s in if code p == code c then rest else none

module _ (lib : SolanaLib) where
  abbrev payload : Option String → List (List ℕ) → List (List ℕ)
  payload none rest = rest
  payload (some b64) rest =
      let (ok, decoded) = lib.decode_base64 b64 in
      if ok then (if leb 8 (length decoded) then decoded ∷ rest else rest) else rest

  unfoldable pub decode_lines : List String → List (List ℕ)
  unfolding after_prefix
  decode_lines [] = []
  decode_lines (line ∷ lines) =
      let rest = decode_lines lines in payload (after_prefix "Program data: " line) rest

  unfoldable pub extract_solana_event_data : UnifiedTransaction → List (List ℕ)
  unfolding log_messages_of decode_lines
  extract_solana_event_data tx = decode_lines (log_messages_of tx.raw_data)
