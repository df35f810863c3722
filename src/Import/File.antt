-- ===== src/Import/File.antt =====
-- importDanmakuFile and importDanAnyAss: from the file to the danmaku, with the dan-any database
-- that is open in between.
pub mod Database
use danmaku.Prelude.{ℕ, List, [], ◌∷◌, ◌++◌, map}
use danmaku.Js.Text.{Text, codes}
use danmaku.Js.Number.{Number, floor, div_1000}
use danmaku.Js.Outcome.{
  Thrown, error, Outcome, returned, thrown, Async, pure, throw, ◌>>=◌, message_or,
}
use danmaku.Js.Value.{Value, null, array, property, items, of_items}
use danmaku.Api.Types.Danmaku.{DanmakuData}
use danmaku.Import.Common.{import_common_parsed, normalize_dplayer, normalize_artplayer}
use danmaku.Import.Normalized.{DanAnyItem, normalized_danmaku}
use danmaku.Import.Ass.{ass_value, decode_ass_value, decompress_ass, restored, or_default}

-- importFormats, but for the labels.
pub data ImportFormat : Type 0 where
  common_json danuni_json danuni_pb bilibili_xml bilibili_pb bilibili_command_pb : ImportFormat
  bilibili_up_json dplayer_json artplayer_json ddplay_json tencent_json vod_json : ImportFormat
  baha_json iqiyi_xml youku_json mgtv_json ass : ImportFormat

-- The adapters of dan-any, by their names; `danuni_json_v1` is DanuniJsonAdapter with isV1.
pub data Adapter : Type 0 where
  artplayer_adapter baha_adapter bili_command_grpc_adapter bili_grpc_adapter : Adapter
  bili_up_adapter bili_xml_adapter danuni_json_adapter danuni_json_v1_adapter : Adapter
  danuni_pb_adapter ddplay_adapter dplayer_adapter iqiyi_adapter mgtv_adapter : Adapter
  tencent_adapter vod_adapter youku_adapter : Adapter

-- What an adapter is given.
pub data Payload : Type 0 where
  json : Value → Payload
  binary : List ℕ → Payload
  plain : Text → Payload

-- What happens to the database of an import, in order.
pub data Event : Type 0 where
  opened closed : Event
  imported : Adapter → Payload → Event

-- What the file, the browser and the libraries answer; each answer may be an exception.
pub record Platform : Type 0 where
  pub file_text : Outcome Text
  pub file_bytes : Outcome (List ℕ)
  pub date_now : Number
  pub json_parse : Text → Outcome Value
  pub text_decode : List ℕ → Text
  pub atob : Text → Outcome Text
  pub decode_base16384 : Text → Outcome (List ℕ)
  pub zstd : List ℕ → Outcome (List ℕ)
  pub brotli : List ℕ → Outcome (List ℕ)
  pub ungzip : List ℕ → Outcome (List ℕ)
  -- database.import(adapter(payload)), as its chunk's danmaku
  pub import_chunk : Adapter → Payload → Outcome (List DanAnyItem)

-- Code that runs while a database may be open; the world is what has happened to it.
abbrev pub Import : Type 0 → Type 0
Import A = Async (List Event) A

abbrev lift : {A : Type 0} → Outcome A → Import A
lift o events = (o, events)

module _ (p : Platform) where
  open p use {file_text, file_bytes, date_now, json_parse, text_decode, import_chunk}

  -- database.import(...)
  unfoldable pub database_import : Adapter → Payload → Import (List DanAnyItem)
  database_import adapter payload events =
      (import_chunk adapter payload, events ++ imported adapter payload ∷ [])

  file_json : Import Value
  file_json = do text ← lift file_text; lift (json_parse text)

  ass_bytes : Text → Text → Text → Outcome (List ℕ)
  ass_bytes value base compression =
      elim (decode_ass_value p.atob p.decode_base16384 p.zstd p.brotli p.ungzip value base) [
        | returned bytes ↦
            decompress_ass p.atob p.decode_base16384 p.zstd p.brotli p.ungzip bytes compression
        | thrown e ↦ thrown e
      ]

  legacy_list : Value → Import (List DanAnyItem)
  unfolding database_import restored
  legacy_list (array vs) =
      database_import danuni_json_v1_adapter (json (array (of_items (map restored (items vs)))))
  legacy_list v = throw (error (codes "ASS Raw 数据结构无效"))

  -- `parsed.list`, which null does not have
  legacy_parsed : Value → Import (List DanAnyItem)
  unfolding legacy_list
  legacy_parsed null = throw (error (codes "Cannot read properties of null (reading 'list')"))
  legacy_parsed v = legacy_list (property (codes "list") v)

  legacy_bytes : List ℕ → Import (List DanAnyItem)
  unfolding legacy_parsed
  legacy_bytes bytes = do parsed ← lift (json_parse (text_decode bytes)); legacy_parsed parsed

  -- `Raw`, of older files
  legacy_raw : Text → Text → Text → Import (List DanAnyItem)
  unfolding ass_bytes legacy_bytes
  legacy_raw [] base compression = throw (error (codes "ASS 中没有 dan-any 可还原的 Raw 数据"))
  legacy_raw (c ∷ s) base compression = do
    bytes ← lift (ass_bytes (c ∷ s) base compression)
    legacy_bytes bytes

  -- `RawPb` if there is one
  current_raw : Text → Text → Text → Text → Import (List DanAnyItem)
  unfolding ass_bytes database_import legacy_raw
  current_raw [] legacy base compression = legacy_raw legacy base compression
  current_raw (c ∷ s) legacy base compression = do
    bytes ← lift (ass_bytes (c ∷ s) base compression)
    database_import danuni_pb_adapter (binary bytes)

  -- importDanAnyAss
  unfoldable pub import_dan_any_ass : Text → Import (List DanAnyItem)
  unfolding current_raw ass_value
  import_dan_any_ass text =
      current_raw (ass_value text (codes "RawPb")) (ass_value text (codes "Raw"))
        (or_default (ass_value text (codes "RawBaseType")) (codes "base64"))
        (or_default (ass_value text (codes "RawCompressType")) (codes "gzip"))

  from_json : Adapter → Import (List DanAnyItem)
  unfolding file_json database_import
  from_json adapter = do v ← file_json; database_import adapter (json v)

  from_binary : Adapter → Import (List DanAnyItem)
  unfolding database_import
  from_binary adapter = do bytes ← lift file_bytes; database_import adapter (binary bytes)

  from_text : Adapter → Import (List DanAnyItem)
  unfolding database_import
  from_text adapter = do text ← lift file_text; database_import adapter (plain text)

  -- The body of the `try`, for the formats other than `common.json`.
  unfoldable pub import_chunk_of : ImportFormat → Import (List DanAnyItem)
  unfolding from_json from_binary from_text import_dan_any_ass file_json
  import_chunk_of ImportFormat.common_json = pure []
  import_chunk_of ImportFormat.danuni_json = from_json danuni_json_adapter
  import_chunk_of ImportFormat.danuni_pb = from_binary danuni_pb_adapter
  import_chunk_of ImportFormat.bilibili_xml = from_text bili_xml_adapter
  import_chunk_of ImportFormat.bilibili_pb = from_binary bili_grpc_adapter
  import_chunk_of ImportFormat.bilibili_command_pb = from_binary bili_command_grpc_adapter
  import_chunk_of ImportFormat.bilibili_up_json = from_json bili_up_adapter
  import_chunk_of ImportFormat.dplayer_json = do
    v ← file_json
    database_import dplayer_adapter (json (normalize_dplayer v))
  import_chunk_of ImportFormat.artplayer_json = do
    v ← file_json
    database_import artplayer_adapter (json (normalize_artplayer v))
  import_chunk_of ImportFormat.ddplay_json = from_json ddplay_adapter
  import_chunk_of ImportFormat.tencent_json = from_json tencent_adapter
  import_chunk_of ImportFormat.vod_json = from_json vod_adapter
  import_chunk_of ImportFormat.baha_json = from_json baha_adapter
  import_chunk_of ImportFormat.iqiyi_xml = from_text iqiyi_adapter
  import_chunk_of ImportFormat.youku_json = from_json youku_adapter
  import_chunk_of ImportFormat.mgtv_json = from_json mgtv_adapter
  import_chunk_of ImportFormat.ass = do text ← lift file_text; import_dan_any_ass text

  -- The `catch` and the `finally`.
  abbrev settle : Outcome (List DanAnyItem) × List Event → Outcome (List DanmakuData) × List Event
  settle (returned chunk, events) =
      (returned (normalized_danmaku date_now chunk), events ++ closed ∷ [])
  settle (thrown e, events) = (
    thrown (error (codes "无法按所选格式解析文件：" ++ message_or (codes "文件内容无效") e)),
    events ++ closed ∷ [],
  )

  common_file : Import (List DanmakuData)
  common_file = do
    text ← lift file_text
    parsed ← lift (json_parse text)
    lift (import_common_parsed (floor (div_1000 date_now)) parsed)

  -- importDanmakuFile
  unfoldable pub import_danmaku_file : ImportFormat → Import (List DanmakuData)
  unfolding common_file import_chunk_of
  import_danmaku_file ImportFormat.common_json events = common_file events
  import_danmaku_file format events = settle (import_chunk_of format (events ++ opened ∷ []))
