-- ===== src/Tools/Submit.antt =====
-- The tools that submit an answer, on the in-memory backend.
use dbagent_tree.Prelude.{
  String, ◌≡◌, refl, ap, ◌∙◌, true, false, some, [], ◌∷◌, string_eq, ◌==◌, if◌then◌else◌,
}
use dbagent_tree.Dict.{lookup}
use dbagent_tree.Exec.{Result, ok}
use dbagent_tree.Mini
use dbagent_tree.Mini.{MiniDb}
use dbagent_tree.Mini.Invariant.{IsValid}
use dbagent_tree.Mini.Flow.{begun, written, start_lem, put_lem, commit_written}
use dbagent_tree.Client.Session.{Dial}
use dbagent_tree.Client.State.{Client, using_mini}
use dbagent_tree.Client.Plain
use dbagent_tree.Tools.Json.{Fields, bool, str}
use dbagent_tree.Tools.Python.{Python, stripped, text_or}
use dbagent_tree.Tools.Reply.{ok_reply}
use dbagent_tree.Tools.Tx.{is_empty, submit_begun, submit_under, submit_final_answer}

module _ (dial : Dial) (t k v : String) (c : Client) (mini : using_mini c ≡ true)
    (h : IsValid c.mini) where
  -- The client on the way.
  abbrev at_start : Client
  at_start = record c { mini = begun t k v c.mini h }

  abbrev at_put : Client
  at_put = record c { mini = written t k v c.mini h }

  abbrev at_commit : Client
  at_commit = record c { mini = (Mini.commit t (written t k v c.mini h)).1 }

  client_start : Plain.start dial t c ≡ (ok t, at_start)
  unfolding Plain.start
  client_start = rw mini (rw (start_lem t k v c.mini h))

  client_put : Plain.put t k v at_start ≡ (ok tt, at_put)
  unfolding Plain.put using_mini
  client_put = rw mini (rw (put_lem t k v c.mini h))

  client_commit : Plain.commit t at_put ≡ (ok tt, at_commit)
  unfolding Plain.commit using_mini
  client_commit = rw mini (rw ((commit_written t k v c.mini h).0))

  abbrev submitted : {F : Type 0} → Fields F
  submitted = ok_reply (("key", str k) ∷ ("value", str v) ∷ ("committed", bool true) ∷ [])

  client_submit :
      {F : Type 0} (py : Python F) → submit_under py t k v at_start ≡ (ok submitted, at_commit)
  unfolding submit_under
  client_submit py = rw client_put (rw client_commit)

module _ {F : Type 0} (py : Python F) (dial : Dial) (uuid : String) (args : Fields F)
    (c : Client) where
  abbrev pub submitted_key : String
  submitted_key = stripped py "key" args

  abbrev pub submitted_value : String
  submitted_value = text_or py "value" "" args

  -- With a key, an answer that is submitted to the in-memory database is committed: the reply says
  -- so, the key has the value, every other key has what it had, and the database is still valid.
  pub submit_final_answer_lem :
      using_mini c ≡ true
      → is_empty submitted_key ≡ false
      → IsValid c.mini
      → let (r, c') = submit_final_answer py dial uuid args c in
        (r
          ≡ ok (
              ok_reply (
                ("key", str submitted_key)
                ∷ ("value", str submitted_value)
                ∷ ("committed", bool true)
                ∷ [])))
        × ((j : String)
            → lookup j c'.mini.store
              ≡ (if j == submitted_key then some submitted_value else lookup j c.mini.store))
        × IsValid c'.mini
  unfolding submit_final_answer
  submit_final_answer_lem mini key h =
      let w = commit_written uuid submitted_key submitted_value c.mini h in
      let e : submit_final_answer py dial uuid args c ≡ (
        ok (
            ok_reply (
              ("key", str submitted_key)
              ∷ ("value", str submitted_value)
              ∷ ("committed", bool true)
              ∷ [])),
        at_commit dial uuid submitted_key submitted_value c mini h,
      ) =
        let opened : submit_final_answer py dial uuid args c
            ≡ submit_begun py submitted_key submitted_value (Plain.start dial uuid c).0
                (Plain.start dial uuid c).1 =
          rw key in
        opened
        ∙ ap (λ (x : Result String × Client). submit_begun py submitted_key submitted_value x.0 x.1)
            (client_start dial uuid submitted_key submitted_value c mini h)
        ∙ client_submit dial uuid submitted_key submitted_value c mini h py in
      rw e (refl, w.1, w.2)
