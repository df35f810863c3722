-- ===== src/Pools/External/Tests.antt =====
-- A file that is imported, and the theorem at it.
use danmaku.Prelude.{ℕ, ◌≤◌, ◌≡◌, refl, true, false, ◌==◌, none, some, List, [], ==_iff}
use danmaku.Js.Text.{Text, codes}
use danmaku.Js.Number.{Number, integer}
use danmaku.Js.Outcome.{returned, thrown, Async, other}
use danmaku.Js.Value.{Value, array, nil}
use danmaku.Api.Types.Danmaku.{DanmakuData}
use danmaku.Import.File.{ImportFormat, Platform, import_danmaku_file}
use danmaku.Binding.{opening, bind_pool}
use danmaku.Pools.External.ImportDialog.{ImportDialog, imported_pool_id}
use danmaku.Pools.External.ImportDialog.Once.{import_attempts, import_attempts-create_once}
use danmaku.Pools.Tests.Server.{
  ServerState, fetch_at, stringify, invalidate, served, create_counts, targets, server,
}
use danmaku.Js.Text.{text_eq_refl}

-- Files are numbers, and each can be read as an export with no danmaku.
abbrev platform : Platform
platform = record {
  file_text = returned (codes "[]");
  file_bytes = returned [];
  date_now = integer 1700000000999;
  json_parse = λ text. returned (array nil);
  text_decode = λ bytes. bytes;
  atob = λ text. thrown other;
  decode_base16384 = λ text. thrown other;
  zstd = λ bytes. thrown other;
  brotli = λ bytes. thrown other;
  ungzip = λ bytes. thrown other;
  import_chunk = λ adapter payload. returned [];
}

abbrev import_file : ℕ → ImportFormat → Async ServerState (List DanmakuData)
import_file file format w = ((import_danmaku_file platform format []).0, w)

abbrev import_path : Text
import_path = codes "/api/admin/external"

import_bind_keeps :
    (result : Value) (video offset : Number) (w : ServerState)
    → (bind_pool stringify
        (fetch_at import_path)
        invalidate
        (codes "external")
        imported_pool_id
        result
        video
        offset
        w).1.pools
      ≡ w.pools
unfolding served
import_bind_keeps result video offset w = refl

abbrev chosen_file : ImportDialog ℕ
chosen_file = record {
  name = codes "a";
  format = ImportFormat.common_json;
  file = some 5;
  parse_error = [];
  parsed_file = none;
  creation_binding = opening;
  shown = true;
}

abbrev imported : ImportDialog ℕ × ServerState
imported =
    import_attempts (λ a b. a == b) (λ f. codes "file") import_file stringify (fetch_at import_path)
      invalidate targets chosen_file server

import_attempts-create_once_example :
    (imported.1.pools ≤ 4) × (imported.0.shown ≡ false → imported.1.pools ≡ 4)
import_attempts-create_once_example =
    import_attempts-create_once (λ a b. a == b) (λ f. codes "file") import_file stringify
      (fetch_at import_path) invalidate 5 (λ w. w.pools) (λ f. (==_iff f f).1 refl) (λ key w. refl)
      (λ f format w. refl) (create_counts import_path (text_eq_refl import_path)) import_bind_keeps
      targets chosen_file server refl refl refl
