-- ===== src/VideosPage/Tests.antt =====
-- A video that is linked to a pool, and the theorem at it.
use danmaku.Prelude.{ℕ, none, [], ◌∷◌}
use danmaku.Js.Text.{codes}
use danmaku.Js.Number.{integer}
use danmaku.Api.Types.Bindings.{bahamut, tencent}
use danmaku.Api.Types.Pools.{CatalogPool}
use danmaku.VideosPage.Dialog.{catalog, VideoPools, VideoDialog}

abbrev pool_of : ℕ → CatalogPool
pool_of n = record {
  id = integer n;
  episode_id = codes "e";
  danmaku_count = integer 0;
  blocked_count = integer 0;
  binding_count = integer 0;
  last_attempt_time = none;
  last_sync_time = none;
  create_time = [];
  update_time = [];
}

-- A pool of Bahamut and one of Tencent, with the same number.
abbrev pools : VideoPools
pools = record {
  bilibili_pools = [];
  iqiyi_pools = [];
  dandanplay_pools = [];
  animeko_pools = [];
  catalog_pools = (pool_of 5, bahamut) ∷ (pool_of 5, tencent) ∷ [];
  external_pools = [];
}

abbrev linked : VideoDialog
linked = record {
  name = [];
  source = catalog tencent;
  pool_id = codes "5";
  offset = codes "0";
  export_format = codes "danuni.json";
}
