-- ===== src/Pools/External/ImportDialog.antt =====
-- ImportDialog of frontend/src/pages/external-page.tsx: a file becomes a new pool, or the content of
-- one that is there.
pub mod Once
use danmaku.Prelude.{
  Bool, true, false, ◌&&◌, ◌||◌, not, Option, none, some, List, [], ◌∷◌, ◌++◌, if◌then◌else◌, map,
}
use danmaku.Js.Text.{Text, codes, is_empty, text_eq, trim}
use danmaku.Js.Outcome.{Outcome, returned, thrown, Async, message_or}
use danmaku.Js.Value.{Value, null, number, string, array, object, field, end, of_items, property}
use danmaku.Api.Client.{Request, Response, api_post, api_put}
use danmaku.Api.Mutation.{Toast, api_mutation}
use danmaku.Api.Types.Danmaku.{DanmakuData}
use danmaku.Api.Types.Pools.{ExternalPool}
use danmaku.Binding.{PoolVideoBinding, opening, open_changed, set_video_id, set_offset}
use danmaku.Import.File.{
  ImportFormat, common_json, danuni_json, danuni_pb, bilibili_xml, bilibili_pb, bilibili_command_pb,
  bilibili_up_json, dplayer_json, artplayer_json, ddplay_json, tencent_json, vod_json, baha_json,
  iqiyi_xml, youku_json, mgtv_json, ass,
}
use danmaku.Pools.Requests.{submit_creation}

-- The value of a format in importFormats.
unfoldable pub format_value : ImportFormat → Text
format_value common_json = codes "common.json"
format_value danuni_json = codes "danuni.json"
format_value danuni_pb = codes "danuni.pb"
format_value bilibili_xml = codes "bilibili.xml"
format_value bilibili_pb = codes "bilibili.pb"
format_value bilibili_command_pb = codes "bilibili-command.pb"
format_value bilibili_up_json = codes "bilibili-up.json"
format_value dplayer_json = codes "dplayer.json"
format_value artplayer_json = codes "artplayer.json"
format_value ddplay_json = codes "ddplay.json"
format_value tencent_json = codes "tencent.json"
format_value vod_json = codes "vod.json"
format_value baha_json = codes "baha.json"
format_value iqiyi_xml = codes "iqiyi.xml"
format_value youku_json = codes "youku.json"
format_value mgtv_json = codes "mgtv.json"
format_value ass = codes "ass"

abbrev pub import_formats : List ImportFormat
import_formats =
    common_json ∷ danuni_json ∷ danuni_pb ∷ bilibili_xml ∷ bilibili_pb ∷ bilibili_command_pb
    ∷ bilibili_up_json ∷ dplayer_json ∷ artplayer_json ∷ ddplay_json ∷ tencent_json ∷ vod_json
    ∷ baha_json ∷ iqiyi_xml ∷ youku_json ∷ mgtv_json ∷ ass ∷ []

-- The format of a pool that is imported again, if it is one of those above.
unfoldable pub format_from : List ImportFormat → Text → ImportFormat
unfolding text_eq format_value
format_from [] source_format = common_json
format_from (f ∷ fs) source_format =
    let rest = format_from fs source_format in
    if text_eq (format_value f) source_format then f else rest

-- `parsedFile.current`
pub record ParsedFile (F : Type 0) : Type 0 where
  pub file : F
  pub format : ImportFormat
  pub danmaku : List DanmakuData

pub record ImportDialog (F : Type 0) : Type 0 where
  pub name : Text
  pub format : ImportFormat
  pub file : Option F
  pub parse_error : Text
  pub parsed_file : Option (ParsedFile F)
  pub creation_binding : PoolVideoBinding Value
  pub shown : Bool

abbrev pub text_value : Option Text → Value
text_value none = null
text_value (some s) = string s

abbrev pub danmaku_json : DanmakuData → Value
danmaku_json d = object (
    field (codes "time") (number d.time) (
      field (codes "mode") (number d.mode) (
        field (codes "size") (number d.size) (
          field (codes "color") (number d.color) (
            field (codes "timeStamp") (number d.time_stamp) (
              field (codes "pool") (number d.pool) (
                field (codes "author") (string d.author) (
                  field (codes "authorId") (number d.author_id)
                    (field (codes "text") (text_value d.text) end)))))))))

unfoldable pub import_body : Text → ImportFormat → List DanmakuData → Value
unfolding format_value
import_body name format danmaku = object (
    field (codes "name") (string name) (
      field (codes "sourceFormat") (string (format_value format))
        (field (codes "danmaku") (array (of_items (map danmaku_json danmaku))) end)))

abbrev pub pool_name : Option ExternalPool → Text
pool_name none = []
pool_name (some pool) = pool.name

abbrev pub or_else : Text → Text → Text
or_else [] fallback = fallback
or_else (c ∷ s) fallback = c ∷ s

abbrev pub opened_format : Option ExternalPool → ImportFormat
opened_format none = common_json
opened_format (some pool) = format_from import_formats pool.source_format

-- result.data.id
unfoldable pub imported_pool_id : Value → Value
unfolding property
imported_pool_id result = property (codes "id") (property (codes "data") result)

abbrev pub import_message : Option ExternalPool → Text → Text
import_message (some pool) video_id = codes "弹幕池已覆盖导入"
import_message none [] = codes "弹幕池已导入"
import_message none (c ∷ s) = codes "弹幕池已导入并关联视频"

abbrev pub import_keys : List Text
import_keys =
    codes "external-pools"
    ∷ codes "external-pool-options"
    ∷ codes "external-pool-danmaku"
    ∷ codes "external-keywords"
    ∷ codes "videos"
    ∷ codes "video"
    ∷ codes "video-heatmap"
    ∷ []

module _ {F : Type 0} where
  -- The effect of `open` and `pool`, and that of `open` on the binding.
  unfoldable pub dialog_opened : Option ExternalPool → ImportDialog F → ImportDialog F
  unfolding format_from
  dialog_opened pool d = record {
    name = pool_name pool;
    format = opened_format pool;
    file = none;
    parse_error = [];
    parsed_file = none;
    creation_binding = d.creation_binding;
    shown = true;
  }

  unfoldable pub dialog_closed : ImportDialog F → ImportDialog F
  unfolding open_changed
  dialog_closed d = record d {
    creation_binding = open_changed false d.creation_binding;
    shown = false;
  }

  unfoldable pub with_target : Text → Text → ImportDialog F → ImportDialog F
  unfolding set_video_id set_offset
  with_target video_id offset d = record d {
    creation_binding = set_offset offset (set_video_id video_id d.creation_binding);
  }

  -- The danmaku that were read from the file before, in the same format. Files are told apart by
  -- `same_file`, which is ===.
  module _ (same_file : F → F → Bool) where
    unfoldable pub parsed_before :
        F → ImportFormat → Option (ParsedFile F) → Option (List DanmakuData)
    unfolding text_eq format_value
    parsed_before file format none = none
    parsed_before file format (some p) =
        if same_file p.file file && text_eq (format_value p.format) (format_value format)
        then some p.danmaku
        else none

  abbrev pub remember :
      F → ImportFormat → Outcome (List DanmakuData) → Option (ParsedFile F) → Option (ParsedFile F)
  remember file format (returned danmaku) parsed =
      some (record { file = file; format = format; danmaku = danmaku })
  remember file format (thrown e) parsed = parsed

module _ {F W : Type 0} (same_file : F → F → Bool) (file_name : F → Text)
    (import_file : F → ImportFormat → Async W (List DanmakuData)) where
  unfoldable pub parse_unless :
      F
      → ImportFormat
      → Option (ParsedFile F)
      → Option (List DanmakuData)
      → W
      → Outcome (List DanmakuData) × Option (ParsedFile F) × W
  parse_unless file format parsed (some danmaku) w = (returned danmaku, parsed, w)
  parse_unless file format parsed none w =
      let (o, w') = import_file file format w in (o, remember file format o parsed, w')

  module _ (stringify : Value → Text) (fetch : Request → Async W Response)
      (invalidate : Text → W → W) (pool : Option ExternalPool) where
    -- The mutation: an existing pool is overwritten, a new one is created and bound.
    unfoldable pub import_pool :
        Value → PoolVideoBinding Value → W → Outcome Value × PoolVideoBinding Value × W
    unfolding submit_creation api_post api_put api_mutation imported_pool_id
    import_pool body b w = elim pool [
      | none ↦
          let (o, toast, b', w') =
            submit_creation stringify fetch invalidate (codes "external") import_keys
              (api_post fetch (codes "/api/admin/external")) imported_pool_id
              (import_message none b.video_id) body b w in
          (o, b', w')
      | some p ↦
          let (o, toast, w') =
            api_mutation (api_put fetch (codes "/api/admin/external/" ++ p.id)) invalidate
              (import_message (some p) b.video_id) import_keys body w in
          (o, b, w')
    ]

    abbrev pub body_of : F → List DanmakuData → ImportDialog F → Value
    body_of file danmaku d =
        import_body (or_else (trim d.name) (or_else (pool_name pool) (file_name file))) d.format
          danmaku

    -- `onSuccess` closes the dialog and clears the name and the file.
    unfoldable pub import_settled :
        Outcome Value → PoolVideoBinding Value → ImportDialog F → ImportDialog F
    unfolding dialog_closed
    import_settled (returned _) b d =
        dialog_closed (record d { name = []; file = none; creation_binding = b })
    import_settled (thrown e) b d = record d { creation_binding = b }

    -- The file is read, or was.
    unfoldable pub parsed : F → Outcome (List DanmakuData) → ImportDialog F → W → ImportDialog F × W
    unfolding import_pool import_settled import_body trim
    parsed file (thrown e) d w = (record d { parse_error = message_or (codes "文件解析失败") e }, w)
    parsed file (returned danmaku) d w =
        let (o, b, w') = import_pool (body_of file danmaku d) d.creation_binding w in
        (import_settled o b d, w')

    unfoldable pub submit_file : Option F → ImportDialog F → W → ImportDialog F × W
    unfolding parsed parse_unless parsed_before
    submit_file none d w = (d, w)
    submit_file (some file) d w =
        let (o, parsed_file', w') =
          parse_unless file d.format d.parsed_file
            (parsed_before same_file file d.format d.parsed_file) w in
        parsed file o (record d { parse_error = []; parsed_file = parsed_file' }) w'

    -- `submit`, from the event to the end of the mutation.
    unfoldable pub submit : ImportDialog F → W → ImportDialog F × W
    unfolding submit_file
    submit d w = submit_file d.file d w
