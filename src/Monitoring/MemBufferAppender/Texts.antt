-- ===== src/Monitoring/MemBufferAppender/Texts.antt =====
-- Texts that are added to a line one after the other.
use open_esl.Prelude.{
  ℕ, zero, suc, ◌≡◌, refl, ap, ◌∙◌, Bool, true, false, [], ◌∷◌, ◌++◌, append-nil, append_assoc,
  arith, ◌==◌, if◌then◌else◌, if_cases, length, take, Bytes, take_all,
}
use open_esl.Monitoring.MemBufferAppender.{Appender}
use open_esl.Monitoring.MemBufferAppender.Log.{Log, clip, add}
use open_esl.Monitoring.MemBufferAppender.Steps.{Implements}

take-take : (n : ℕ) (line text : Bytes) → take n (take n line ++ text) ≡ take n (line ++ text)
take-take zero line text = refl
take-take (suc n) [] text = refl
take-take (suc n) (c ∷ line) text = ap (λ xs. c ∷ xs) (take-take n line text)

clip-clip :
    (n : ℕ) (line text more : Bytes)
    → clip n (clip n (line ++ text) ++ more) ≡ clip n (line ++ (text ++ more))
unfolding clip
clip-clip n line text more =
    go (n == 0) ∙ ap (λ xs. if n == 0 then xs else take n xs) (append_assoc line text more)
  where
    go :
        (unlimited : Bool)
        → (if unlimited
            then (if unlimited then line ++ text else take n (line ++ text)) ++ more
            else take n ((if unlimited then line ++ text else take n (line ++ text)) ++ more))
          ≡ (if unlimited then (line ++ text) ++ more else take n ((line ++ text) ++ more))
    go true = refl
    go false = take-take n (line ++ text) more

-- Texts that are added one after the other.
pub add-add :
    (n : ℕ) (text more : Bytes) (log : Log) → add n more (add n text log) ≡ add n (text ++ more) log
unfolding add
add-add n text more log =
    ap (λ line. record log { current = record log.current { line = line } })
      (clip-clip n log.current.line text more)

pub add_nothing : (a : Appender) (log : Log) → Implements a log → add a.max_columns [] log ≡ log
unfolding add clip
add_nothing a log v =
    ap (λ line. record log { current = record log.current { line = line } })
      (if_cases (λ line. line ≡ log.current.line) (a.max_columns == 0) _ _
        (λ e. append-nil log.current.line)
        (λ e.
          take_all a.max_columns (log.current.line ++ [])
            (ground (arith, e, v.clipped, v.columns, ap length (append-nil log.current.line)))
          ∙ append-nil log.current.line))
