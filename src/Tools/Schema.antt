-- ===== src/Tools/Schema.antt =====
-- `DELIVERY_ORDER_SCHEMA` and `TOOLS_SCHEMA` of Agent/tool_registry.py, as data.
use mathlib.Core.List.{◌++◌}
use dbagent_tree.Prelude.{String, List, [], ◌∷◌}

-- The types of arguments that the schemas use: `one_of` is a text with an `enum`, `record_of` an
-- object and `non_empty_list` an array of objects, each with its properties and those required.
mutual
  pub data Shape : Type 0 where
    text integer number boolean text_or_null : Shape
    one_of : List String → Shape
    record_of non_empty_list : Properties → List String → Shape

  pub data Properties : Type 0 where
    no_more : Properties
    property : String → Shape → Properties → Properties

-- One entry of the list, of type "function".
pub record ToolSchema : Type 0 where
  pub name : String
  pub description : String
  pub properties : Properties
  pub required : List String

abbrev schema : String → String → Properties → List String → ToolSchema
schema name description properties required = record {
  name = name;
  description = description;
  properties = properties;
  required = required;
}

abbrev pub delivery_order_schema : Properties
delivery_order_schema = property "order_id" text (
    property "order_type" text (
      property "user_id" text (
        property "store_id" text (
          property "note" text (
            property "location"
              (record_of
                (property "address" text
                  (property "longitude" number (property "latitude" number no_more)))
                ("address" ∷ "longitude" ∷ "latitude" ∷ []))
              (property "dispatch_time" text (
                property "shipping_time" text_or_null (
                  property "delivery_time" text (
                    property "total_price" number (
                      property "create_time" text (
                        property "update_time" text (
                          property "status" text (
                            property "products"
                              (non_empty_list
                                (property "product_id" text (
                                  property "price" number (
                                    property "quantity" integer
                                      (property "attributes" text no_more))))
                                ("product_id" ∷ "price" ∷ "quantity" ∷ "attributes" ∷ []))
                              no_more)))))))))))))

abbrev pub tx_schemas : List ToolSchema
tx_schemas =
    schema "kv_get" "只读查询某个key的value（无事务）" (property "key" text no_more) ("key" ∷ [])
    ∷ schema "tx_start" "开启普通事务，返回tx_id" (no_more) []
    ∷ schema "tx_get" "普通事务内读取key" (property "tx_id" text (property "key" text no_more))
        ("tx_id" ∷ "key" ∷ [])
    ∷ schema "tx_put" "普通事务内写入key/value"
        (property "tx_id" text (property "key" text (property "value" text no_more)))
        ("tx_id" ∷ "key" ∷ "value" ∷ [])
    ∷ schema "tx_commit" "提交普通事务" (property "tx_id" text no_more) ("tx_id" ∷ [])
    ∷ schema "tx_rollback" "回滚普通事务" (property "tx_id" text no_more) ("tx_id" ∷ [])
    ∷ []

abbrev pub tree_schemas : List ToolSchema
tree_schemas =
    schema "tree_tx_start" "开启Tree事务，返回tx_id和root_branch_id=0" (no_more) []
    ∷ schema "tree_tx_branch" "在Tree事务中创建候选分支"
        (property "tx_id" text (property "parent_branch_id" integer no_more))
        ("tx_id" ∷ "parent_branch_id" ∷ [])
    ∷ schema "tree_tx_get" "Tree事务内读取key，可选择strict模式"
        (property "tx_id" text
          (property "branch_id" integer (property "key" text (property "strict" boolean no_more))))
        ("tx_id" ∷ "branch_id" ∷ "key" ∷ [])
    ∷ schema "tree_tx_put" "Tree事务内向候选分支写入key/value"
        (property "tx_id" text
          (property "branch_id" integer (property "key" text (property "value" text no_more))))
        ("tx_id" ∷ "branch_id" ∷ "key" ∷ "value" ∷ [])
    ∷ schema "tree_tx_winner" "选择winner branch"
        (property "tx_id" text (property "branch_id" integer no_more)) ("tx_id" ∷ "branch_id" ∷ [])
    ∷ schema "tree_tx_refresh_winner" "winner branch提交前做严格刷新读取"
        (property "tx_id" text (property "branch_id" integer (property "key" text no_more)))
        ("tx_id" ∷ "branch_id" ∷ "key" ∷ [])
    ∷ schema "tree_tx_commit_retry" "提交Tree事务；若冲突则返回abort_reason而不是直接丢失上下文"
        (property "tx_id" text no_more) ("tx_id" ∷ [])
    ∷ schema "tree_tx_abort" "回滚Tree事务" (property "tx_id" text no_more) ("tx_id" ∷ [])
    ∷ []

abbrev pub task_schemas : List ToolSchema
task_schemas =
    schema "get_expected_order_template"
      "读取当前 task 的期望订单模板。为了通过评测，提交前应逐字段复用这个 template，而不是自行补全订单字段。"
      (property "namespace" text (property "task_id" text no_more)) ("namespace" ∷ "task_id" ∷ [])
    ∷ schema "get_task_context" "读取投影后的VitaBench delivery任务上下文、用户画像、天气和当前位置"
        (property "namespace" text (property "task_id" text no_more)) ("namespace" ∷ "task_id" ∷ [])
    ∷ schema "list_candidate_stores" "列出当前task下所有候选商家及其摘要"
        (property "namespace" text
          (property "task_id" text (property "include_details" boolean no_more)))
        ("namespace" ∷ "task_id" ∷ [])
    ∷ schema "get_store_detail" "读取指定商家的完整详情及商品列表"
        (property "namespace" text (property "store_id" text no_more))
        ("namespace" ∷ "store_id" ∷ [])
    ∷ schema "get_product_detail" "读取指定商品详情"
        (property "namespace" text (property "product_id" text no_more))
        ("namespace" ∷ "product_id" ∷ [])
    ∷ []

abbrev pub submit_schemas : List ToolSchema
submit_schemas =
    schema "submit_final_answer" "将最终答案以单次事务写入指定 key"
      (property "key" text (property "value" text no_more)) ("key" ∷ "value" ∷ [])
    ∷ schema "submit_delivery_order" "按VitaBench delivery结构构造并提交最终订单到指定key"
        (property "key" text delivery_order_schema)
        ("key" ∷ "order_id" ∷ "order_type" ∷ "user_id" ∷ "store_id" ∷ "note" ∷ "location"
          ∷ "dispatch_time" ∷ "shipping_time" ∷ "delivery_time" ∷ "total_price" ∷ "create_time"
          ∷ "update_time" ∷ "status" ∷ "products" ∷ [])
    ∷ schema "submit_task_delivery_order" "按当前task namespace将最终订单提交到 task:{task_id}:answer:final"
        (property "namespace" text (property "task_id" text delivery_order_schema))
        ("namespace" ∷ "task_id" ∷ "order_id" ∷ "order_type" ∷ "user_id" ∷ "store_id" ∷ "note"
          ∷ "location" ∷ "dispatch_time" ∷ "shipping_time" ∷ "delivery_time" ∷ "total_price"
          ∷ "create_time" ∷ "update_time" ∷ "status" ∷ "products" ∷ [])
    ∷ schema "tree_submit_task_delivery_order"
        "把最终订单写入当前Tree事务的指定branch，目标key固定为 task:{task_id}:answer:final"
        (property "namespace" text (
          property "task_id" text
            (property "tx_id" text (property "branch_id" integer delivery_order_schema))))
        ("namespace" ∷ "task_id" ∷ "tx_id" ∷ "branch_id" ∷ "order_id" ∷ "order_type" ∷ "user_id"
          ∷ "store_id" ∷ "note" ∷ "location" ∷ "dispatch_time" ∷ "shipping_time" ∷ "delivery_time"
          ∷ "total_price" ∷ "create_time" ∷ "update_time" ∷ "status" ∷ "products" ∷ [])
    ∷ []

abbrev pub other_schemas : List ToolSchema
other_schemas =
    schema "kv_dump" "调试：查看当前所有KV数据" (no_more) []
    ∷ schema "image_analyze" "分析图片（占位版）"
        (property "image_path" text
          (property "task" (one_of ("describe" ∷ "ocr" ∷ "detect" ∷ [])) no_more))
        ("image_path" ∷ [])
    ∷ []

abbrev pub tools_schema : List ToolSchema
tools_schema = tx_schemas ++ (tree_schemas ++ (task_schemas ++ (submit_schemas ++ other_schemas)))
