-- ===== src/Snapshot/Decode.antt =====
-- What GetSnapshot returns, and on which chain.
use averlock.Prelude.{
  ℕ, ◌%◌, ◌^◌, ◌<◌, ◌≡◌, refl, true, Option, none, some, [], ◌∷◌, ◌++◌, Bytes, length, arith, ok,
  pos, length-append, take, drop, suc, zero, ap, List, ◌*◌, drop-nil, drop-append, drop-drop,
  take-append, not, ◌==◌, ◌∙◌,
}
use averlock.Ethereum.Words.{of_bytes, to_bytes, length-to_bytes, of_bytes-to_bytes, bytes_size}
use averlock.Snapshot.{
  EventSnapshot, ReaderConfig, Node, Batch, GuardManagerReader, connect_and_validate,
  new_guard_manager_reader, decode_snapshot, get_snapshot, expected_guard_manager,
}

-- GetSnapshot of a new reader returns a snapshot only if the reader is configured for the expected
-- GuardManager, the node was dialled, its chain ID is 114 in its low 64 bits, and there is code at
-- the manager.
pub get_snapshot-IsValidated :
    (config : ReaderConfig) (node : Node) (batch : Option Batch) (s : EventSnapshot)
    → get_snapshot (new_guard_manager_reader config node) batch ≡ ok s
    → (config.guard_manager_address ≡ expected_guard_manager)
      × (node.dials ≡ true)
      × ((c : ℕ) × (node.chain_id ≡ some c) × (c % 2 ^ 64 ≡ 114))
      × ((b : ℕ) × (bs : Bytes) × (node.code ≡ some (b ∷ bs)))
unfolding get_snapshot new_guard_manager_reader connect_and_validate
get_snapshot-IsValidated config node batch s h = ground arith

-- the ABI encoding of static words
abbrev pub encode_words : List ℕ → Bytes
encode_words [] = []
encode_words (n ∷ ns) = to_bytes 32 n ++ encode_words ns

drop-encode_words :
    (i : ℕ) (ns : List ℕ) → drop (32 * i) (encode_words ns) ≡ encode_words (drop i ns)
drop-encode_words zero ns = refl
drop-encode_words (suc i) [] = drop-nil (32 * suc i) (suc i)
drop-encode_words (suc i) (n ∷ ns) =
    ap (λ k. drop k (encode_words (n ∷ ns))) (omega arith)
    ∙ drop-drop 32 (32 * i) (encode_words (n ∷ ns))
    ∙ ap (drop (32 * i)) (drop-append (to_bytes 32 n) (encode_words ns) 32 (length-to_bytes 32 n))
    ∙ drop-encode_words i ns

-- the number at word `i`
word_at :
    (i : ℕ) (n : ℕ) (rest ns : List ℕ)
    → drop i ns ≡ n ∷ rest
    → n < 2 ^ 256
    → of_bytes (take 32 (drop (32 * i) (encode_words ns))) ≡ n
word_at i n rest ns e lt =
    rw
      (
        drop-encode_words i ns,
        e,
        take-append (to_bytes 32 n) (encode_words rest) 32 (length-to_bytes 32 n),
      )
      (of_bytes-to_bytes 32 n (unfold bytes_size in lt))

length-encode_words : (ns : List ℕ) → length (encode_words ns) ≡ 32 * length ns
length-encode_words [] = refl
length-encode_words (n ∷ ns) = omega (
  arith,
  length-append {0} (to_bytes 32 n) (encode_words ns),
  length-to_bytes 32 n,
  length-encode_words ns,
)

module _ (rule value price price_time payment_time prepared consumed : ℕ)
    (rule_fits : rule < 2 ^ 256) (value_fits : value < 2 ^ 256) (price_fits : price < 2 ^ 256)
    (price_time_fits : price_time < 2 ^ 64) (payment_time_fits : payment_time < 2 ^ 64)
    (prepared_fits : prepared < 2 ^ 64) (consumed_fits : consumed < 2 ^ 256) where
  abbrev pub answers : List ℕ
  answers = rule ∷ value ∷ price ∷ price_time ∷ payment_time ∷ prepared ∷ []

  abbrev pub snapshot : EventSnapshot
  snapshot = record {
    rule_id = rule;
    event_value_usd18 = some (pos value);
    price_usd18 = some (pos price);
    price_timestamp = price_time;
    payment_timestamp = payment_time;
    prepared_at = prepared;
    consumed = not (consumed == 0);
  }

  low_64 : {n m : ℕ} → n ≡ m → m < 2 ^ 64 → n % 2 ^ 64 ≡ m
  low_64 e lt = omega arith

  decode_words : decode_snapshot (encode_words answers) (to_bytes 32 consumed) ≡ snapshot
  unfolding decode_snapshot
  decode_words = λ i. record {
    rule_id = word_at 0 rule (drop 1 answers) answers refl rule_fits i;
    event_value_usd18 = some (pos (word_at 1 value (drop 2 answers) answers refl value_fits i));
    price_usd18 = some (pos (word_at 2 price (drop 3 answers) answers refl price_fits i));
    price_timestamp =
        low_64 (word_at 3 price_time (drop 4 answers) answers refl (omega arith)) price_time_fits i;
    payment_timestamp =
        low_64 (word_at 4 payment_time (drop 5 answers) answers refl (omega arith))
          payment_time_fits i;
    prepared_at = low_64 (word_at 5 prepared [] answers refl (omega arith)) prepared_fits i;
    consumed = not (of_bytes-to_bytes 32 consumed (unfold bytes_size in consumed_fits) i == 0);
  }

  -- The answers of the contract are read back: a connected reader returns the event's rule, value and
  -- price (each below 2 ^ 256) and its three times (each below 2 ^ 64) from their ABI words, and
  -- reports the event as consumed exactly when the second answer is not zero.
  pub get_snapshot-encode_words :
      (r : GuardManagerReader)
      → r.rpc ≡ true
      → r.init_err ≡ none
      → get_snapshot r (
          some (record {
            snapshot_out = some (encode_words answers);
            consumed_out = some (to_bytes 32 consumed);
          }))
        ≡ ok snapshot
  unfolding get_snapshot
  get_snapshot-encode_words r client clean =
      ground (arith, length-encode_words answers, length-to_bytes 32 consumed, decode_words)
