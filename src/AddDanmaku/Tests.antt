-- ===== src/AddDanmaku/Tests.antt =====
-- A form that is filled in.
use danmaku.Prelude.{◌≡◌, refl, true, false, none, some, []}
use danmaku.Js.Text.{codes, trim}
use danmaku.Js.Number.{integer, to_number}
use danmaku.Js.Value.{number, string, object, field, end}
use danmaku.DanmakuPage.Editor.{parse_int_16}
use danmaku.AddDanmaku.{AddForm, opened_form, add_body, add_disabled}

abbrev filled : AddForm
filled = record (opened_form (codes " v1 ")) { text = codes " hi"; color = codes "#ff0000" }

body_test :
    add_body none [] filled
    ≡ object (
        field (codes "id") (string (codes "v1")) (
          field (codes "time") (number (integer 0)) (
            field (codes "type") (number (integer 0)) (
              field (codes "color") (number (integer 0xff0000)) (
                field (codes "text") (string (codes "hi")) (
                  field (codes "author") (string []) (field (codes "referer") (string []) end)))))))
unfolding add_body opened_form to_number parse_int_16 trim
body_test = refl

-- A form with no text cannot be sent.
disabled_test : add_disabled false false (some (codes "v1")) (opened_form []) ≡ true
unfolding add_disabled opened_form trim
disabled_test = refl
