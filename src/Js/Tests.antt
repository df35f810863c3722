-- ===== src/Js/Tests.antt =====
-- Number(text) at inputs of every form.
use danmaku.Prelude.{◌≡◌, refl, pos, negsuc, ◌^◌, ◌*◌}
use danmaku.Js.Text.{codes}
use danmaku.Js.Print.{number_text, to_radix}
use danmaku.Js.Number.{nan, infinity, neg_infinity, decimal, integer, to_number}

to_number_tests :
    (to_number (codes "") ≡ integer 0)
    × (to_number (codes " 42 ") ≡ integer 42)
    × (to_number (codes "-1.25") ≡ decimal (negsuc 124) 2)
    × (to_number (codes ".5e3") ≡ decimal (pos 5000) 1)
    × (to_number (codes "5.") ≡ decimal (pos 5) 0)
    × (to_number (codes "1e-2") ≡ decimal (pos 1) 2)
    × (to_number (codes "0x1F") ≡ integer 31)
    × (to_number (codes "Infinity") ≡ infinity)
    × (to_number (codes "-Infinity") ≡ neg_infinity)
    × (to_number (codes "1e999") ≡ infinity)
    × (to_number (codes "4 2") ≡ nan)
    × (to_number (codes ".") ≡ nan)
    × (to_number (codes "0x") ≡ nan)
    × (to_number (codes "1e") ≡ nan)
unfolding to_number
to_number_tests =
    (refl, refl, refl, refl, refl, refl, refl, refl, refl, refl, refl, refl, refl, refl)

number_text_tests :
    (number_text (integer 0) ≡ codes "0")
    × (number_text (integer 1200) ≡ codes "1200")
    × (number_text (decimal (negsuc 124) 2) ≡ codes "-1.25")
    × (number_text (decimal (pos 100) 3) ≡ codes "0.1")
    × (number_text (decimal (pos 5) 7) ≡ codes "5e-7")
    × (number_text (decimal (pos 15) 6) ≡ codes "0.000015")
    × (number_text (integer (10 ^ 21)) ≡ codes "1e+21")
    × (number_text (integer (15 * 10 ^ 21)) ≡ codes "1.5e+22")
    × (number_text (integer (10 ^ 20)) ≡ codes "100000000000000000000")
    × (to_radix 16 0xff8001 ≡ codes "ff8001")
unfolding number_text to_radix
number_text_tests = (refl, refl, refl, refl, refl, refl, refl, refl, refl, refl)
