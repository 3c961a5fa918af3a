-- ===== src/Select/ReadUntil.antt =====
-- select/src/composite_async_ops.hpp: async_read_until up to a delimiter. The reads themselves enter as
-- their completions.
use cosec_examples.Prelude.{
  ℕ, suc, ◌+◌, ◌-◌, Option, none, some, List, [], ◌∷◌, ◌++◌, ◌==◌, if◌then◌else◌, length, drop, min,
}

abbrev pub Bytes : Type 0
Bytes = List ℕ

-- The exceptions that the callback is called with.
pub data Error : Type 0 where
  length_error broken_pipe system_error : Error

-- A dynamic buffer, its size the length of its bytes.
pub record Buffer : Type 0 where
  pub bytes : Bytes
  pub capacity : ℕ
  pub max_size : ℕ

-- std::find, as the number of elements before the delimiter.
unfoldable pub index_of : ℕ → Bytes → Option ℕ
index_of delim [] = none
index_of delim (b ∷ bs) =
    let later = index_of delim bs in
    if b == delim then some 0 else elim later [ none ↦ none | some p ↦ some (suc p) ]

-- The predicate: from element `i` on, the length of the data with its delimiter.
unfoldable pub match_len : ℕ → ℕ → Bytes → Option ℕ
match_len delim i bs = elim (index_of delim (drop i bs)) [ none ↦ none | some p ↦ some (i + p + 1) ]

-- What a call of async_read_until_impl does: the callback is given to the executor, a read of a number
-- of bytes is started, or both. `searched` is the predicate's `i`.
pub record Until : Type 0 where
  pub buffer : Buffer
  pub searched : ℕ
  pub callback : Option (Option Error × ℕ)
  pub read_of : Option ℕ

-- std::min(buf.max_size(),buf.capacity())-buf.size()
unfoldable pub room : Buffer → ℕ
room b = min b.max_size b.capacity - length b.bytes

-- push_back and pop_back: `grow` is the growth strategy of the buffer.
unfoldable pub grown : (ℕ → ℕ) → Buffer → Buffer
grown grow b = if length b.bytes == b.capacity then record b { capacity = grow b.capacity } else b

-- No match: the exception goes to the callback, but a read is started all the same.
unfoldable pub read_more : (ℕ → ℕ) → Buffer → Until
read_more grow b =
    if length b.bytes == b.max_size
    then record {
      buffer = b;
      searched = length b.bytes;
      callback = some (some length_error, 0);
      read_of = some (room b);
    }
    else record {
      buffer = grown grow b;
      searched = length b.bytes;
      callback = none;
      read_of = some (room (grown grow b));
    }

unfoldable pub async_read_until_impl : (ℕ → ℕ) → ℕ → ℕ → Buffer → Until
async_read_until_impl grow delim i b = elim (match_len delim i b.bytes) [
  | none ↦ read_more grow b
  | some n ↦ record { buffer = b; searched = i; callback = some (none, n); read_of = none }
]

-- The completion of the read: nothing is the end of the stream.
unfoldable pub read_completed : (ℕ → ℕ) → ℕ → ℕ → Buffer → Bytes → Until
read_completed grow delim i b [] = record {
  buffer = b;
  searched = i;
  callback = some (some broken_pipe, length b.bytes);
  read_of = none;
}
read_completed grow delim i b (c ∷ cs) =
    async_read_until_impl grow delim i (record b { bytes = b.bytes ++ c ∷ cs })

unfoldable pub read_failed : ℕ → Buffer → Until
read_failed i b = record {
  buffer = b;
  searched = i;
  callback = some (some system_error, length b.bytes);
  read_of = none;
}
