-- ===== src/Engine/Batch/Tests.antt =====
-- Runs of a tick, and its theorems at concrete inputs.
use chain_parse_service.Base.{
  ℕ, ◌≡◌, refl, Bool, true, false, none, some, List, [], ◌∷◌, arith, str_eq, inl,
}
use chain_parse_service.Base.Dict.{lookup}
use chain_parse_service.Base.Int.{ℤ, pos, ◌+ℤ◌}
use chain_parse_service.Model.{side_in, role_token0, SwapRecord}
use chain_parse_service.Types.{
  ethereum, UnifiedBlock, UnifiedTransaction, raw_nil, DexData, empty_dex_data, ProcessProgress,
  idle,
}
use chain_parse_service.Engine.{
  Extractor, EngineConfig, Replies, fetch, store_blocks, extract_dex_data, extract_loop, merge,
  process_chain_batch, fetch_range, store_batch, advance, save, store_blocks_failed, start_block,
  end_block, batch_size, get_or_create_progress, all_transactions, total_dex_records,
}
use chain_parse_service.Engine.Merge.{Answers, Appended, extract_dex_data-Answers}
use chain_parse_service.Engine.Batch.Trace.{CompletesOrKeeps, process_chain_batch_cases}
use chain_parse_service.Engine.Batch.Ticks.{Tick, tick, run, ranges, next_progress}
use chain_parse_service.Engine.Batch.Coverage.{InRanges, run-InRanges, head_waits}

abbrev transfer : UnifiedTransaction
transfer = record {
  tx_hash = "0x1";
  block_number = some (pos 101);
  tx_index = 0;
  from_address = "a";
  to_address = "b";
  timestamp = 7;
  raw_data = raw_nil;
}

abbrev block : UnifiedBlock
block = record { block_number = pos 101; chain_type = ethereum; transactions = transfer ∷ [] }

abbrev swap : SwapRecord
swap = record {
  token_addr = "t0";
  pool_addr = "p";
  protocol = "uniswap_v2";
  role = role_token0;
  side = side_in;
  tx_hash = "0x1";
  raw_amount = pos 5;
  token_decimals = none;
  paired_token_addr = "t1";
  block_number = pos 101;
  block_time = 7;
  log_index = 3;
}

abbrev with_swap : DexData ℕ
with_swap = record empty_dex_data { swap_records = swap ∷ [] }

abbrev on_ethereum : Extractor ℕ
on_ethereum = record {
  supports_block = λ b. str_eq b.chain_type ethereum;
  extract = λ bs. some with_swap;
}

-- The swap records of the answer are not in the result.
swaps_dropped : extract_dex_data (on_ethereum ∷ []) (block ∷ []) ≡ some empty_dex_data
unfolding extract_dex_data extract_loop merge
swaps_dropped = refl

extract_dex_data-Answers_example :
    (ds : List (DexData ℕ)) × Answers (block ∷ []) (on_ethereum ∷ []) ds
    × Appended empty_dex_data empty_dex_data ds
extract_dex_data-Answers_example =
    extract_dex_data-Answers (on_ethereum ∷ []) (block ∷ []) empty_dex_data swaps_dropped

abbrev config : EngineConfig
config = record { batch_size = pos 50; chain_configs = [] }

abbrev at_block : ℤ → ProcessProgress ℕ
at_block n = record {
  chain_type = ethereum;
  last_processed_block = n;
  last_update_time = 0;
  total_transactions = 0;
  total_events = 0;
  processing_status = idle;
  start_time = 0;
  last_error_time = 0;
  error_count = 0;
  success_rate = 0;
}

abbrev replies : ℤ → Bool → Replies ℕ
replies latest ok = record {
  tracker = some (some (at_block (pos 100)));
  latest = some latest;
  blocks = λ s e. some (block ∷ []);
  store_blocks_ok = ok;
  store_transactions_ok = true;
  store_dex_ok = true;
  now = 9;
  zero_rate = 0;
}

failing_tick :
    process_chain_batch config ethereum (on_ethereum ∷ []) (replies (pos 200) false) ≡ record {
      error = some store_blocks_failed;
      trace = fetch (pos 101) (pos 151) ∷ store_blocks (block ∷ []) ∷ [];
    }
unfolding process_chain_batch get_or_create_progress start_block batch_size end_block fetch_range
    extract_dex_data extract_loop merge store_batch all_transactions lookup ◌+ℤ◌ total_dex_records
failing_tick = refl

process_chain_batch_cases_example :
    CompletesOrKeeps config ethereum (on_ethereum ∷ []) (replies (pos 200) true)
process_chain_batch_cases_example =
    process_chain_batch_cases config ethereum (on_ethereum ∷ []) (replies (pos 200) true)

abbrev ticks : List (Tick ℕ)
ticks =
    record {
      extractors = on_ethereum ∷ [];
      replies = replies (pos 200) true;
      load_ok = true;
      update_ok = true;
    }
    ∷ record {
      extractors = on_ethereum ∷ [];
      replies = replies (pos 200) true;
      load_ok = true;
      update_ok = true;
    }
    ∷ []

two_ticks :
    ((run config ethereum (at_block (pos 100)) ticks).last_processed_block ≡ pos 200)
    × (ranges config ethereum (at_block (pos 100)) ticks
        ≡ (pos 101, pos 151) ∷ (pos 152, pos 200) ∷ [])
unfolding run ranges next_progress tick process_chain_batch get_or_create_progress start_block
    batch_size end_block fetch_range extract_dex_data extract_loop merge store_batch
    all_transactions lookup ◌+ℤ◌ total_dex_records advance save
two_ticks = (refl, refl)

run-InRanges_example : InRanges (pos 170) (ranges config ethereum (at_block (pos 100)) ticks)
run-InRanges_example =
    run-InRanges config ethereum (at_block (pos 100)) ticks (pos 170) (omega arith)
      (inl refl, (inl refl, tt)) (omega arith) (rw two_ticks.0 (omega arith))

abbrev one_new : Tick ℕ
one_new = record {
  extractors = on_ethereum ∷ [];
  replies = replies (pos 101) true;
  load_ok = true;
  update_ok = true;
}

head_waits_example :
    tick config ethereum (at_block (pos 100)) one_new ≡ record { error = none; trace = [] }
unfolding ◌+ℤ◌
head_waits_example =
    head_waits config ethereum (at_block (pos 100)) one_new (pos 101) (omega arith) refl refl refl

-- GetProgress fails, and the chain has no StartBlock.
abbrev blind : Tick ℕ
blind = record {
  extractors = on_ethereum ∷ [];
  replies = replies (pos 1000) true;
  load_ok = false;
  update_ok = true;
}

abbrev seeing : Tick ℕ
seeing = record blind { load_ok = true }
