-- ===== src/AddDanmaku.antt =====
-- AddDanmakuForm of frontend/src/components/add-danmaku-form.tsx.
mod Tests
use danmaku.Prelude.{Bool, ◌||◌, Option, none, some, List, [], ◌∷◌}
use danmaku.Js.Text.{Text, codes, is_empty, trim}
use danmaku.Js.Number.{to_number}
use danmaku.Js.Outcome.{Outcome, returned, thrown, Async}
use danmaku.Js.Value.{Value, number, string, object, field, end}
use danmaku.Api.Client.{Request, Response, api_post}
use danmaku.Api.Mutation.{Toast, api_mutation}
use danmaku.DanmakuPage.Editor.{parse_int_16, after_first}
use danmaku.Widgets.Select.{SelectOption}

pub record AddForm : Type 0 where
  pub video_id : Text
  pub time : Text
  pub kind : Text
  pub color : Text
  pub text : Text

unfoldable pub opened_form : (initial_vid : Text) → AddForm
opened_form initial_vid = record {
  video_id = initial_vid;
  time = codes "0";
  kind = codes "0";
  color = codes "#ffffff";
  text = [];
}

abbrev pub kind_options : List SelectOption
kind_options =
    record { value = codes "0"; label = codes "滚动" }
    ∷ record { value = codes "1"; label = codes "顶部" }
    ∷ record { value = codes "2"; label = codes "底部" }
    ∷ []

-- The video that the form is for, or the one in its field.
unfoldable pub video_of : Option Text → AddForm → Text
unfolding trim
video_of none form = trim form.video_id
video_of (some vid) form = vid

-- The body, with the address of the page as `referer`.
unfoldable pub add_body : Option Text → (referer : Text) → AddForm → Value
unfolding video_of to_number parse_int_16 trim
add_body vid referer form = object (
    field (codes "id") (string (video_of vid form)) (
      field (codes "time") (number (to_number form.time)) (
        field (codes "type") (number (to_number form.kind)) (
          field (codes "color") (number (parse_int_16 (after_first form.color))) (
            field (codes "text") (string (trim form.text)) (
              field (codes "author") (string [])
                (field (codes "referer") (string referer) end)))))))

unfoldable pub add_disabled : (disabled pending : Bool) → Option Text → AddForm → Bool
unfolding video_of trim
add_disabled disabled pending vid form =
    disabled || pending || is_empty (trim form.text) || is_empty (video_of vid form)

-- `onSuccess` of the form itself.
unfoldable pub add_settled : Outcome Value → AddForm → AddForm
add_settled (returned _) form = record form { text = [] }
add_settled (thrown e) form = form

abbrev pub add_keys : List Text
add_keys =
    codes "danmaku"
    ∷ codes "danmaku-vids"
    ∷ codes "videos"
    ∷ codes "video"
    ∷ codes "video-heatmap"
    ∷ []

module _ {W : Type 0} (fetch : Request → Async W Response) (invalidate : Text → W → W) where
  unfoldable pub add_danmaku : Value → W → Outcome Value × Toast × W
  unfolding api_mutation api_post
  add_danmaku =
      api_mutation (λ body. api_post fetch (codes "/api/danmaku/dplayer/v3") body) invalidate
        (codes "弹幕已添加") add_keys
