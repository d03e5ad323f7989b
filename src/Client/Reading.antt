-- ===== src/Client/Reading.antt =====
-- `_readline` of Agent/db_client.py does not depend on how the stream is cut into chunks.
use mathlib.Core.List.{◌++◌, append_assoc, append-nil}
use dbagent_tree.Prelude.{
  ℕ, ◌≡◌, refl, inl, inr, Option, none, some, List, [], ◌∷◌, arith, nat_eq, ◌==◌, Option-cases,
  Bool-cases,
}
use dbagent_tree.Exec.{Result, ok, err}
use dbagent_tree.Client.Session.{Event, chunk, fault, cut_line, read_loop}

-- The bytes that the events bring.
abbrev pub joined : List Event → List ℕ
joined [] = []
joined (chunk bs ∷ es) = bs ++ joined es
joined (fault m ∷ es) = []

-- Every event brings bytes.
abbrev pub AllData : List Event → Type 0
AllData [] = Unit
AllData (chunk [] ∷ es) = ⊥
AllData (chunk (b ∷ bs) ∷ es) = AllData es
AllData (fault m ∷ es) = ⊥

-- What stands behind the first line does not change where it ends.
cut_line-append :
    (xs ys line rest : List ℕ)
    → cut_line xs ≡ some (line, rest)
    → cut_line (xs ++ ys) ≡ some (line, rest ++ ys)
unfolding cut_line
cut_line-append [] ys line rest h = cc
cut_line-append (x ∷ xs) ys line rest h = elim (Bool-cases (x == 10)) [
  | inl here ↦ ground arith
  | inr later ↦ elim (Option-cases (cut_line xs)) [
    | inl never ↦ ground arith
    | inr ((l, r), e) ↦ ground (arith, cut_line-append xs ys l r e)
  ]
]

-- The answer of `_readline` to a whole stream: its first line, or the error if it has none.
abbrev pub first_line : Option (List ℕ × List ℕ) → Result (List ℕ)
first_line none = err "server closed connection"
first_line (some (line, rest)) = ok line

-- What stands behind the first line, or all of the stream if it has none.
abbrev pub left_over : List ℕ → Option (List ℕ × List ℕ) → List ℕ
left_over all none = all
left_over all (some (line, rest)) = rest

-- Whatever the chunks, when every event brings bytes: the line read is the first line of the buffer
-- and the stream together, and without a line break the answer is the error; what is left in the
-- buffer and the stream together is what stands behind that line, or all of it without one.
pub read_loop_lem :
    (es : List Event) (buf : List ℕ)
    → AllData es
    → ((read_loop es buf).0 ≡ first_line (cut_line (buf ++ joined es)))
      × ((read_loop es buf).2 ++ joined (read_loop es buf).1
          ≡ left_over (buf ++ joined es) (cut_line (buf ++ joined es)))
unfolding read_loop
read_loop_lem [] buf h = elim (Option-cases (cut_line buf)) [
  | inl e ↦ rw (append-nil buf) (rw e (refl, append-nil buf))
  | inr ((l, r), e) ↦ rw (append-nil buf) (rw e (refl, append-nil r))
]
read_loop_lem (fault m ∷ es) buf h = absurd h
read_loop_lem (chunk [] ∷ es) buf h = absurd h
read_loop_lem (chunk (b ∷ bs) ∷ es) buf h = elim (Option-cases (cut_line buf)) [
  | inl e ↦
      rw e (rw (← append_assoc buf (b ∷ bs) (joined es)) (read_loop_lem es (buf ++ (b ∷ bs)) h))
  | inr ((l, r), e) ↦
      let all = cut_line-append buf (b ∷ bs ++ joined es) l r e in rw (e, all) (refl, refl)
]
