-- ===== src/Tools/Context.antt =====
-- The tools of Agent/tools/kv_tools.py that read the projected task, and `image_analyze` of
-- Agent/tools/image_tools.py. `dials n` is what the network gives to the n-th read of a tool.
use dbagent_tree.Prelude.{
  ℕ, suc, String, ◌++◌, Bool, true, false, not, ◌||◌, List, [], ◌∷◌, pos, string_eq, ◌==◌, length,
  if◌then◌else◌,
}
use dbagent_tree.Exec.{Result, ok, err, Exec, pure, lift, ◌>>=◌}
use dbagent_tree.Client.Session.{Dial}
use dbagent_tree.Client.State.{Client}
use dbagent_tree.Client.Plain
use dbagent_tree.Text.Words.{strip}
use dbagent_tree.Tools.Json.{
  Json, Fields, bool, int, str, array, object, nil, cons, end, field, fields, field_or, items,
  to_list,
}
use dbagent_tree.Tools.Python.{Python, stripped, text_or, str_of, truthy}
use dbagent_tree.Tools.Reply.{ok_reply, err_reply, task_key, parse_json_value}
use dbagent_tree.Tools.Tx.{Reply, is_empty, unless, attempt}

module _ {F : Type 0} where
  -- The ids that `for store_id in store_ids` walks over: the items of a list, the keys of a dict, the
  -- characters of a text.
  unfoldable pub key_items : Fields F → List (Json F)
  key_items end = []
  key_items (field k v fs) = str k ∷ key_items fs

  abbrev pub chars : String → List (Json F)
  chars String.[] = []
  chars (String.◌∷◌ c s) = str (String.◌∷◌ c "") ∷ chars s

  -- `for store_id in store_ids`
  unfoldable pub iterate : Json F → Result (List (Json F))
  unfolding key_items
  iterate (array xs) = ok (to_list xs)
  iterate (object fs) = ok (key_items fs)
  iterate (str s) = ok (chars s)
  iterate _ = err "object is not iterable"

module _ {F : Type 0} (py : Python F) (dials : ℕ → ℕ → Dial) where
  -- `_parse_json_value(agent_db.kv_get(_task_key(namespace, suffix)), default)`, as the n-th read.
  unfoldable pub read_json : ℕ → String → String → Json F → Exec Client (Json F)
  read_json n namespace suffix default = do
    raw ← Plain.kv_get (dials n) (task_key namespace suffix)
    pure (parse_json_value py raw default)

  abbrev task_extra : String → String → List (String × Json F)
  task_extra namespace task_id = ("namespace", str namespace) ∷ ("task_id", str task_id) ∷ []

  unfoldable pub get_task_context : Fields F → Reply F
  unfolding read_json
  get_task_context args =
      let namespace = stripped py "namespace" args in
      let task_id = stripped py "task_id" args in
      unless (is_empty namespace || is_empty task_id) "missing namespace or task_id" (
        attempt (task_extra namespace task_id) (do
          meta ← read_json 0 namespace "meta:task" (object end)
          user_profile ← read_json 1 namespace "user:profile" (object end)
          user_history ← read_json 2 namespace "user:history" (object end)
          weather ← read_json 3 namespace "weather:index" (array nil)
          locations ← read_json 4 namespace "location:index" (array nil)
          current_orders ← read_json 5 namespace "orders:current" (array nil)
          pure (
              ok_reply (
                ("task_id", str task_id)
                ∷ ("meta", meta)
                ∷ ("user_profile", user_profile)
                ∷ ("user_history", user_history)
                ∷ ("weather", weather)
                ∷ ("locations", locations)
                ∷ ("current_orders", current_orders)
                ∷ []))))

  -- `expected_orders[0]` of a list that is not empty, or the empty dict.
  abbrev template_of : Json F → Json F
  template_of (array (cons first rest)) = first
  template_of _ = object end

  abbrev submission_rule : String
  submission_rule =
      "提交前请逐字段复用 template；不要自造 order_id、status、dispatch_time、shipping_time、delivery_time、note、attributes 等字段。"

  unfoldable pub get_expected_order_template : Fields F → Reply F
  unfolding read_json
  get_expected_order_template args =
      let namespace = stripped py "namespace" args in
      let task_id = stripped py "task_id" args in
      unless (is_empty namespace || is_empty task_id) "missing namespace or task_id" (
        attempt (task_extra namespace task_id) (do
          expected_orders ← read_json 0 namespace "meta:expected_orders" (array nil)
          state_rubrics ← read_json 1 namespace "meta:state_rubrics" (array nil)
          overall_rubrics ← read_json 2 namespace "meta:overall_rubrics" (array nil)
          pure (
              ok_reply (
                ("task_id", str task_id)
                ∷ ("template", template_of expected_orders)
                ∷ ("state_rubrics", state_rubrics)
                ∷ ("overall_rubrics", overall_rubrics)
                ∷ ("submission_rule", str submission_rule)
                ∷ []))))

  -- The stores of the ids, from the n-th read on.
  unfoldable pub collect_stores : Bool → String → ℕ → List (Json F) → Exec Client (List (Json F))
  unfolding read_json
  collect_stores details namespace n [] = pure []
  collect_stores true namespace n (store_id ∷ ids) = do
    store ← read_json n namespace ("store:" ++ (str_of py store_id ++ ":detail")) (object end)
    rest ← collect_stores true namespace (suc n) ids
    pure (if truthy py store then store ∷ rest else rest)
  collect_stores false namespace n (store_id ∷ ids) = do
    rest ← collect_stores false namespace n ids
    pure (object (fields (("store_id", str (str_of py store_id)) ∷ [])) ∷ rest)

  unfoldable pub get_store_detail : Fields F → Reply F
  unfolding read_json
  get_store_detail args =
      let namespace = stripped py "namespace" args in
      let store_id = stripped py "store_id" args in
      let extra = ("namespace", str namespace) ∷ ("store_id", str store_id) ∷ [] in
      unless (is_empty namespace || is_empty store_id) "missing namespace or store_id" (
        attempt extra (do
          detail ← read_json 0 namespace ("store:" ++ (store_id ++ ":detail")) (object end)
          pure (
              if truthy py detail
              then ok_reply (("store", detail) ∷ [])
              else err_reply "store not found" extra)))

  unfoldable pub get_product_detail : Fields F → Reply F
  unfolding read_json
  get_product_detail args =
      let namespace = stripped py "namespace" args in
      let product_id = stripped py "product_id" args in
      let extra = ("namespace", str namespace) ∷ ("product_id", str product_id) ∷ [] in
      unless (is_empty namespace || is_empty product_id) "missing namespace or product_id" (
        attempt extra (do
          detail ← read_json 0 namespace ("product:" ++ (product_id ++ ":detail")) (object end)
          pure (
              if truthy py detail
              then ok_reply (("product", detail) ∷ [])
              else err_reply "product not found" extra)))

  unfoldable pub list_candidate_stores : Fields F → Reply F
  unfolding read_json collect_stores iterate
  list_candidate_stores args =
      let namespace = stripped py "namespace" args in
      let task_id = stripped py "task_id" args in
      let include_details = truthy py (field_or "include_details" (bool true) args) in
      unless (is_empty namespace || is_empty task_id) "missing namespace or task_id" (
        attempt (task_extra namespace task_id) (do
          found ← read_json 0 namespace "index:stores" (array nil)
          store_ids ← lift (iterate found)
          stores ← collect_stores include_details namespace 1 store_ids
          pure (
              ok_reply (
                ("task_id", str task_id)
                ∷ ("stores", array (items stores))
                ∷ ("count", int (pos (length stores)))
                ∷ []))))

-- The files that `image_analyze` asks for: `Path(p).is_absolute()`, the path below the repository's
-- Agent folder, `path.exists()` and `str(path)`.
pub record Files : Type 0 where
  pub is_absolute : String → Bool
  pub in_agent : String → String
  pub exists : String → Bool
  pub path_text : String → String

unfoldable pub image_analyze : {F : Type 0} → Python F → Files → Fields F → Fields F
image_analyze py files args =
    let image_path = stripped py "image_path" args in
    let asked = strip (text_or py "task" "describe" args) in
    let task = if asked == "" then "describe" else asked in
    let path = if files.is_absolute image_path then image_path else files.in_agent image_path in
    if is_empty image_path
    then fields (("ok", bool false) ∷ ("error", str "missing image_path") ∷ [])
    else if not (files.exists path)
    then fields (
        ("ok", bool false)
        ∷ ("error", str "image not found")
        ∷ ("image_path", str (files.path_text path))
        ∷ [])
    else fields (
        ("ok", bool true)
        ∷ ("task", str task)
        ∷ ("image_path", str (files.path_text path))
        ∷ ("note", str "当前仓库未接入真实视觉模型，这里返回占位结果。若需要，可后续把该工具接到单独的多模态 API。")
        ∷ [])
