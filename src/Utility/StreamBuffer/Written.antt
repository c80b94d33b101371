-- ===== src/Utility/StreamBuffer/Written.antt =====
-- Nothing that is put into the stream gets lost or out of order, and the buffer does not overflow.
use open_esl.Prelude.{
  concat-append, concat, ℕ, ◌≤◌, ◌<◌, ◌≡◌, refl, sym, ap, ◌∙◌, true, some, List, [], ◌∷◌, ◌++◌,
  append-nil, append_assoc, arith, ltb, ◌==◌, ltb→lt, if_cases, length, is_empty, All,
  length-append, All-append, Bytes,
}
use open_esl.Utility.StreamBuffer.{
  StreamBuffer, new_stream_buffer, set_area, sync, overflow, sputc, sputn,
}
use open_esl.Utility.StreamBuffer.Pieces.{IsLine, sync_loop-IsGiven}

-- What is pending fits the area, and the area the buffer.
abbrev pub IsArea : StreamBuffer → Type 0
IsArea b = (length b.pending ≤ b.space) × (b.space < b.buffer_size)

-- All that was pending or put is given to the handler by lines or parts of them, or pending still.
abbrev pub IsWritten : StreamBuffer → Bytes → StreamBuffer × List Bytes → Type 0
IsWritten b bytes r =
    (concat r.1 ++ r.0.pending ≡ b.pending ++ bytes)
    × All IsLine r.1
    × IsArea r.0
    × (r.0.buffer_size ≡ b.buffer_size)

nil-is_empty : (bytes : Bytes) → is_empty bytes ≡ true → bytes ≡ []
nil-is_empty [] e = refl
nil-is_empty (c ∷ bytes) e = cc

sync-IsWritten :
    (b : StreamBuffer)
    → b.space < b.buffer_size
    → IsWritten b [] (sync b) × ((sync b).0.pending ≡ [])
unfolding sync set_area
sync-IsWritten b h =
    if_cases (λ r. IsWritten b [] r × (r.0.pending ≡ [])) (is_empty b.pending) _ _
      (λ e.
        let nothing = nil-is_empty b.pending e in
        ((sym (append-nil b.pending), tt, (omega (arith, h, ap length nothing), h), refl), nothing))
      (λ e.
        let (given, lines) = sync_loop-IsGiven [] b.pending tt in
        ((ap (λ bytes. bytes ++ []) given, lines, (omega arith, omega (arith, h)), refl), refl))

empty_nil : (bytes : Bytes) → length bytes ≡ 0 → bytes ≡ []
empty_nil [] e = refl
empty_nil (c ∷ bytes) e = absurd (omega (arith, e))

pushed-IsWritten :
    (b : StreamBuffer) (c : ℕ)
    → b.space < b.buffer_size
    → IsWritten b (c ∷ []) (sync (record b { pending = b.pending ++ c ∷ [] }))
pushed-IsWritten b c h =
    let (written, nothing) = sync-IsWritten (record b { pending = b.pending ++ c ∷ [] }) h in
    let (given, lines, area, same) = written in
    (given ∙ append-nil (b.pending ++ c ∷ []), lines, area, same)

overflow-IsWritten :
    (b : StreamBuffer) (c : ℕ)
    → IsArea b
    → IsWritten b (c ∷ []) ((overflow (some c) b).0, (overflow (some c) b).1)
unfolding overflow set_area
overflow-IsWritten b c (fits, h) =
    if_cases
      (λ area. IsWritten b (c ∷ []) (sync (record area { pending = area.pending ++ c ∷ [] })))
      (b.space == 0) _ _
      (λ e.
        let nothing = empty_nil b.pending (ground arith) in
        let (given, lines, area, same) = pushed-IsWritten (set_area b) c (omega (arith, h)) in
        (given ∙ ap (λ bytes. bytes ++ c ∷ []) (sym nothing), lines, area, same))
      (λ e. pushed-IsWritten b c h)

sputc-IsWritten : (b : StreamBuffer) (c : ℕ) → IsArea b → IsWritten b (c ∷ []) (sputc c b)
unfolding sputc
sputc-IsWritten b c (fits, h) =
    if_cases (IsWritten b (c ∷ [])) (ltb (length b.pending) b.space) _ _
      (λ e. (refl, tt, (omega (arith, length-append b.pending (c ∷ []), ltb→lt _ _ e), h), refl))
      (λ e. overflow-IsWritten b c (fits, h))

sputn-IsWritten : (b : StreamBuffer) (bytes : Bytes) → IsArea b → IsWritten b bytes (sputn bytes b)
unfolding sputn
sputn-IsWritten b [] area = (sym (append-nil b.pending), tt, area, refl)
sputn-IsWritten b (c ∷ bytes) area =
    let put = sputc c b in
    let others = sputn bytes put.0 in
    let (given, lines, next, same) = sputc-IsWritten b c area in
    let (given_others, lines_others, last, same_others) = sputn-IsWritten put.0 bytes next in
    (
      ap (λ bs. bs ++ others.0.pending) (concat-append put.1 others.1)
          ∙ append_assoc (concat put.1) (concat others.1) others.0.pending
          ∙ ap (λ bs. concat put.1 ++ bs) given_others
          ∙ sym (append_assoc (concat put.1) put.0.pending bytes)
          ∙ ap (λ bs. bs ++ bytes) given
          ∙ append_assoc b.pending (c ∷ []) bytes,
      All-append IsLine put.1 others.1 lines lines_others,
      last,
      same_others ∙ same,
    )

-- Writing bytes to a new stream whose buffer has a size above 0, and `sync` after that: what the
-- handler is given, taken together, is just these bytes in their order, and each time that it is
-- called it is given one byte at least and a line break only as the last one. Before `sync`, fewer
-- bytes than the size of the buffer are pending; after it, none are.
pub sputn-sync_lem :
    (buffer_size : ℕ) (bytes : Bytes)
    → 0 < buffer_size
    → let put = sputn bytes (new_stream_buffer buffer_size) in
      (concat (put.1 ++ (sync put.0).1) ≡ bytes)
      × All IsLine (put.1 ++ (sync put.0).1)
      × (length put.0.pending < buffer_size)
      × ((sync put.0).0.pending ≡ [])
unfolding new_stream_buffer
sputn-sync_lem buffer_size bytes h =
    let put = sputn bytes (new_stream_buffer buffer_size) in
    let (given, lines, area, same) =
      sputn-IsWritten (new_stream_buffer buffer_size) bytes (omega arith, h) in
    let (synced, nothing) = sync-IsWritten put.0 area.1 in
    let (rest, more, after, kept) = synced in
    let flushed : concat (sync put.0).1 ≡ put.0.pending =
      sym (append-nil (concat (sync put.0).1))
      ∙ ap (λ bs. concat (sync put.0).1 ++ bs) (sym nothing)
      ∙ rest
      ∙ append-nil put.0.pending in
    (
      concat-append put.1 (sync put.0).1 ∙ ap (λ bs. concat put.1 ++ bs) flushed ∙ given,
      All-append IsLine put.1 (sync put.0).1 lines more,
      omega (arith, area, same),
      nothing,
    )
