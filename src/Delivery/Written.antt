-- ===== src/Delivery/Written.antt =====
-- What a projected task of Agent/vitabench_delivery.py leaves in the in-memory database.
use dbagent_tree.Prelude.{
  String, ◌≡◌, refl, ap, ◌∙◌, true, Option, none, some, List, [], ◌∷◌, arith, string_eq, ◌==◌,
  if◌then◌else◌,
}
use dbagent_tree.Dict.{Dict, lookup, or_else}
use dbagent_tree.Dict.Laws.{IsDict}
use dbagent_tree.Exec.{Result, ok}
use dbagent_tree.Mini
use dbagent_tree.Mini.Invariant.{IsValid}
use dbagent_tree.Client.Session.{Dial}
use dbagent_tree.Client.State.{Client, using_mini}
use dbagent_tree.Client.Plain
use dbagent_tree.Client.Plain.{mini_puts}
use dbagent_tree.Client.Batches.{batched, batch_lem, commit_batch}
use dbagent_tree.Delivery.Projection.{write_requests, put_all, write_begun, write_entries}

-- A text that is written: one that is not empty.
abbrev pub written : Option String → Option String
written none = none
written (some v) = if v == "" then none else some v

lookup-write_requests :
    (k : String) (entries : Dict String String)
    → IsDict entries
    → lookup k (write_requests entries) ≡ written (lookup k entries)
unfolding write_requests lookup
lookup-write_requests k [] h = refl
lookup-write_requests k ((j, v) ∷ entries) h =
    ground (arith, lookup-write_requests k entries h.1, string_eq.same_iff k j)

write_requests-IsDict :
    (entries : Dict String String) → IsDict entries → IsDict (write_requests entries)
unfolding write_requests
write_requests-IsDict [] h = tt
write_requests-IsDict ((j, v) ∷ entries) h =
    ground (arith, write_requests-IsDict entries h.1, lookup-write_requests j entries)

put_all_lem :
    (uuid : String) (requests : List (String × String)) (c : Client)
    → using_mini c ≡ true
    → put_all uuid requests c
      ≡ ((mini_puts uuid requests c.mini).0, record c { mini = (mini_puts uuid requests c.mini).1 })
unfolding Plain.put_many mini_puts
put_all_lem uuid [] c m = refl
put_all_lem uuid (r ∷ requests) c m = rw m

module _ (dial : Dial) (uuid : String) (entries : Dict String String) (c : Client)
    (mini : using_mini c ≡ true) (h : IsValid c.mini) (unique : IsDict entries) where
  abbrev requests : List (String × String)
  requests = write_requests entries

  -- The client on the way.
  abbrev at_start : Client
  at_start = record c { mini = (Mini.start uuid c.mini).1 }

  abbrev at_put : Client
  at_put = record c { mini = batched uuid requests c.mini h }

  abbrev at_commit : Client
  at_commit = record c { mini = (Mini.commit uuid (batched uuid requests c.mini h)).1 }

  client_start : Plain.start dial uuid c ≡ (ok uuid, at_start)
  unfolding Plain.start
  client_start = rw mini (unfold Mini.start in refl)

  client_put : put_all uuid requests at_start ≡ (ok tt, at_put)
  unfolding using_mini Mini.start
  client_put =
      put_all_lem uuid requests at_start mini
      ∙ ap (λ (r : Result (Unit {0})). (r, at_put)) (batch_lem uuid requests c.mini h).0

  client_commit : Plain.commit uuid at_put ≡ (ok tt, at_commit)
  unfolding Plain.commit using_mini
  client_commit =
      rw mini (rw (commit_batch uuid requests c.mini h (write_requests-IsDict entries unique)).0)

  client_write : write_entries dial uuid entries c ≡ (ok tt, at_commit)
  unfolding write_entries
  client_write =
      let rest : write_begun entries (ok uuid) at_start ≡ (ok tt, at_commit) =
        rw client_put (rw client_commit) in
      ap (λ (x : Result String × Client). write_begun entries x.0 x.1) client_start ∙ rest

  -- On the in-memory backend in a valid state, the entries of a task are written in one transaction:
  -- the call returns, every key that is to have a text has it, all other keys have what they had,
  -- and the database is valid.
  pub write_entries_lem :
      ((write_entries dial uuid entries c).0 ≡ ok tt)
      × ((k : String)
          → lookup k (write_entries dial uuid entries c).1.mini.store
            ≡ or_else (written (lookup k entries)) (lookup k c.mini.store))
      × IsValid (write_entries dial uuid entries c).1.mini
  write_entries_lem =
      let (_, now, valid) =
        commit_batch uuid requests c.mini h (write_requests-IsDict entries unique) in
      rw client_write (
        refl,
        (λ k.
            now k
            ∙ ap (λ o. or_else o (lookup k c.mini.store)) (lookup-write_requests k entries unique)),
        valid,
      )
