-- ===== src/Display/Tests.antt =====
-- Labels and colours, and the theorems at them.
use danmaku.Prelude.{◌≡◌, refl, pos, negsuc, some, inl, inr, arith}
use danmaku.Js.Text.{codes, pad_start}
use danmaku.Js.Number.{decimal}
use danmaku.Display.{color_hex, normalize_hex, format_duration, offset_label, api_date}
use danmaku.Display.Hex.{IsColor, color}

color_hex_test : (color_hex (pos 255) ≡ codes "#0000ff") × (color_hex (negsuc 3) ≡ codes "#000000")
unfolding color_hex pad_start
color_hex_test = (refl, refl)

labels_test :
    (format_duration (pos 3723999) ≡ codes "1:02:03")
    × (offset_label (decimal (pos 15) 1) ≡ codes "+1.5 秒")
    × (api_date (codes "2024-01-02T03:04") ≡ codes "2024-01-02 03:04:00")
unfolding format_duration offset_label api_date pad_start
labels_test = (refl, refl, refl)

short_test : normalize_hex (codes " #aBc ") ≡ some (codes "#aabbcc")
unfolding normalize_hex
short_test = refl

orange : IsColor (codes "#ff9900")
orange =
    color (inr (omega arith, omega arith)) (inr (omega arith, omega arith))
      (inl (omega arith, omega arith)) (inl (omega arith, omega arith))
      (inl (omega arith, omega arith)) (inl (omega arith, omega arith))
