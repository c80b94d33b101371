-- ===== src/Utility/StreamBuffer/Tests.antt =====
-- A small buffer, and the theorem for it.
use open_esl.Prelude.{◌<◌, ◌≡◌, refl, List, [], ◌∷◌, ◌++◌, arith, length, All, concat, Bytes}
use open_esl.Utility.StreamBuffer.{
  StreamBuffer, new_stream_buffer, sync_loop, set_area, sync, overflow, sputc, sputn,
}
use open_esl.Utility.StreamBuffer.Pieces.{IsLine}
use open_esl.Utility.StreamBuffer.Written.{sputn-sync_lem}

-- The first byte is given at once, the others when the buffer is full.
small_buffer :
    (sputn (1 ∷ 2 ∷ 10 ∷ 3 ∷ 4 ∷ []) (new_stream_buffer 3)).1
    ≡ (1 ∷ []) ∷ (2 ∷ 10 ∷ []) ∷ (3 ∷ []) ∷ []
unfolding sputn sputc overflow sync sync_loop set_area new_stream_buffer
small_buffer = refl

abbrev put : StreamBuffer × List Bytes
put = sputn (1 ∷ 2 ∷ 10 ∷ 3 ∷ 4 ∷ []) (new_stream_buffer 3)

sputn-sync_lem_example :
    (concat (put.1 ++ (sync put.0).1) ≡ 1 ∷ 2 ∷ 10 ∷ 3 ∷ 4 ∷ [])
    × All IsLine (put.1 ++ (sync put.0).1)
    × (length put.0.pending < 3)
    × ((sync put.0).0.pending ≡ [])
sputn-sync_lem_example = sputn-sync_lem 3 (1 ∷ 2 ∷ 10 ∷ 3 ∷ 4 ∷ []) (omega arith)
