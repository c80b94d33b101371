-- ===== src/Utility/StreamBuffer.antt =====
-- features/common4esl/src/esl/utility/StreamBuffer.cpp, with the functions of `std::streambuf` that
-- call it. Each operation gives the calls of `writeHandler` that it makes, as the bytes of each.
pub mod Pieces
pub mod Written
mod Tests
use open_esl.Prelude.{
  ℕ, zero, suc, ◌+◌, ◌-◌, ◌*◌, ◌/◌, ◌%◌, ◌^◌, ◌≤◌, ◌<◌, ◌≡◌, refl, sym, ap, ap₂, subst, ◌∙◌, ◌≡⟨◌⟩◌,
  ◌∎, ◌≢◌, ◌⊎◌, inl, inr, Bool, true, false, not, ◌&&◌, ◌||◌, Option, none, some, some-injective,
  List, [], ◌∷◌, ◌++◌, map, reverse, append-nil, append_assoc, reverse-append, reverse-reverse,
  reverse-cons, arith, ltb, leb, ◌==◌, if◌then◌else◌, ltb→lt, lt→ltb, ==_iff, ==-refl, Bool-cases,
  Option-cases, if_cases, if_true, if_false, length, is_empty, get_elem?, get_or, take, drop,
  replicate, All, length-append, All-append, All-imp, get_elem?-append_left, get_elem?-append_at,
  Bytes, IsByte, bytes_eq, bytes_eq_refl, bytes_eq_sound, table_passes, table_passes_entry,
  take-drop_add, length-drop, take_all, take-append-drop, drop-drop, drop-append,
}

-- What is between `pbase()` and `pptr()`, and how far `epptr()` is from `pbase()`.
pub record StreamBuffer : Type 0 where
  pub buffer_size : ℕ
  pub pending : Bytes
  pub space : ℕ

unfoldable pub new_stream_buffer : ℕ → StreamBuffer
new_stream_buffer buffer_size = record { buffer_size = buffer_size; pending = []; space = 0 }

abbrev pub newline : ℕ
newline = 10

-- The loop of `sync` and what follows it, with the bytes since `beginStr`.
unfoldable pub sync_loop : Bytes → Bytes → List Bytes
sync_loop [] [] = []
sync_loop (c ∷ piece) [] = (c ∷ piece) ∷ []
sync_loop piece (c ∷ rest) =
    let ended = sync_loop [] rest in
    let continued = sync_loop (piece ++ c ∷ []) rest in
    if c == newline then (piece ++ c ∷ []) ∷ ended else continued

-- `setp(&buffer[0], &buffer[0] + bufferSize - 1)`
unfoldable pub set_area : StreamBuffer → StreamBuffer
set_area b = record b { pending = []; space = b.buffer_size - 1 }

unfoldable pub sync : StreamBuffer → StreamBuffer × List Bytes
unfolding sync_loop set_area
sync b = if is_empty b.pending then (b, []) else (set_area b, sync_loop [] b.pending)

-- `none` stands for `eof()`.
unfoldable pub overflow : Option ℕ → StreamBuffer → StreamBuffer × List Bytes × Option ℕ
unfolding sync set_area
overflow none b = (b, [], none)
overflow (some c) b =
    let area = if b.space == 0 then set_area b else b in
    let synced = sync (record area { pending = area.pending ++ c ∷ [] }) in
    (synced.0, synced.1, some c)

-- `std::streambuf::sputc`
unfoldable pub sputc : ℕ → StreamBuffer → StreamBuffer × List Bytes
unfolding overflow
sputc c b =
    let overflown = overflow (some c) b in
    if ltb (length b.pending) b.space
    then (record b { pending = b.pending ++ c ∷ [] }, [])
    else (overflown.0, overflown.1)

unfoldable pub sputn : Bytes → StreamBuffer → StreamBuffer × List Bytes
unfolding sputc
sputn [] b = (b, [])
sputn (c ∷ rest) b =
    let put = sputc c b in let others = sputn rest put.0 in (others.0, put.1 ++ others.1)
