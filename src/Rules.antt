-- ===== src/Rules.antt =====
-- NativeRulePanel of frontend/src/components/native-rule-panel.tsx: the rules for the server's own
-- danmaku.
use danmaku.Prelude.{
  Bool, true, false, ◌&&◌, ◌||◌, Option, none, some, [], ◌∷◌, ◌++◌, if◌then◌else◌,
}
use danmaku.Js.Text.{Text, codes, is_empty, trim}
use danmaku.Js.Number.{Number}
use danmaku.Js.Outcome.{Outcome, returned, thrown, Async}
use danmaku.Js.Print.{number_text}
use danmaku.Js.Value.{Value, boolean, string, object, field, end, property}
use danmaku.Api.Client.{Request, Response, api_get, api_post, api_delete}
use danmaku.Api.Mutation.{Toast, api_mutation}

pub data RuleKind : Type 0 where
  keywords authors ips : RuleKind

unfoldable pub kind_name : RuleKind → Text
kind_name keywords = codes "keywords"
kind_name authors = codes "authors"
kind_name ips = codes "ips"

abbrev pub is_authors : RuleKind → Bool
is_authors authors = true
is_authors _ = false

pub record Rule : Type 0 where
  pub id : Number
  pub kind : RuleKind
  pub value : Text
  pub replacement : Text
  pub create_time : Text

pub record RuleForm : Type 0 where
  pub value : Text
  pub replacement : Text
  pub scan_existing : Bool
  pub replaced : Option Value

abbrev pub opened_rules : RuleForm
opened_rules = record { value = []; replacement = []; scan_existing = false; replaced = none }

-- The body of `submit`: only the mapping of authors has a replacement and scans what is there.
unfoldable pub rule_body : RuleKind → RuleForm → Value
rule_body kind form = object (
    field (codes "value") (string form.value) (
      field (codes "replacement") (string (if is_authors kind then form.replacement else []))
        (field (codes "scanExisting") (boolean (is_authors kind && form.scan_existing)) end)))

-- `onSuccess`
unfoldable pub rule_settled : Outcome Value → RuleForm → RuleForm
unfolding property
rule_settled (returned response) form = record {
  value = [];
  replacement = [];
  scan_existing = false;
  replaced =
      if form.scan_existing
      then some (property (codes "replaced") (property (codes "data") response))
      else none;
}
rule_settled (thrown e) form = form

unfoldable pub rule_disabled : (pending : Bool) → RuleKind → RuleForm → Bool
unfolding trim
rule_disabled pending kind form =
    pending || is_empty (trim form.value) || (is_authors kind && is_empty (trim form.replacement))

-- A query by its key, or by the first part of it and the kind.
pub data RuleKey : Type 0 where
  query : Text → RuleKey
  rules_of : RuleKind → RuleKey

abbrev pub rules_path : RuleKind → Text → Text
rules_path kind rest = codes "/api/admin/danmaku-rules/" ++ (kind_name kind ++ rest)

module _ {W : Type 0} (fetch : Request → Async W Response) (kind : RuleKind) where
  unfoldable pub get_rules : Async W Value
  unfolding api_get kind_name
  get_rules = api_get fetch (rules_path kind []) []

  module _ (invalidate : RuleKey → W → W) where
    unfoldable pub create_rule : Value → W → Outcome Value × Toast × W
    unfolding api_mutation api_post kind_name
    create_rule =
        api_mutation (λ body. api_post fetch (rules_path kind []) body) invalidate (codes "规则已创建")
          (rules_of kind
            ∷ query (codes "danmaku")
            ∷ query (codes "danmaku-detail")
            ∷ query (codes "video-heatmap")
            ∷ [])

    unfoldable pub remove_rule : Number → W → Outcome Value × Toast × W
    unfolding api_mutation api_delete number_text kind_name
    remove_rule =
        api_mutation (λ id. api_delete fetch (rules_path kind (codes "/" ++ number_text id)) [])
          invalidate (codes "规则已删除") (rules_of kind ∷ [])
