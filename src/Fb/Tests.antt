-- ===== src/Fb/Tests.antt =====
-- Runs of kernel/fb.c's drawing, and its theorems there.
use red_panda_os.Prelude.{◌≡◌, refl, inl, false, ◌&&◌, none, some, arith}
use red_panda_os.Prelude.Int.{pos, negsuc, ◌+ℤ◌, ◌-ℤ◌}
use red_panda_os.Fb.{
  Mode, Fb, target, on_target, set_byte, offset, put_bgr, clip, fill_row, fill_rows, fill_rect,
  fb_fill_rect, fb_line,
}
use red_panda_os.Fb.Rows.{IsMode}
use red_panda_os.Prelude.Wrap.{int32}
use red_panda_os.Fb.Fill.{Paints, Fits, within, fb_fill_rect-Paints}
use red_panda_os.Fb.Exact.{IsNear}
use red_panda_os.Fb.Line.{fb_line-ends}
use red_panda_os.Fb.Shapes.{isqrt, isqrt_from}

-- Four by three pixels of three bytes, in rows of sixteen bytes.
abbrev small : Mode
small = record { width = 4; height = 3; pitch = 16; bypp = 3 }

abbrev blank : Fb
blank = record {
  lfb = λ o. 0;
  backbuf = some (λ o. 7);
  mode = small;
  cur_sprite = none;
  cur_w = 0;
  cur_h = 0;
  cur_hx = pos 0;
  cur_hy = pos 0;
  cur_x = pos 0;
  cur_y = pos 0;
  cur_visible = false;
}

small-IsMode : IsMode small
small-IsMode = record { depth = inl refl; stride = omega arith; size = omega arith }

-- One column of it is on the screen.
abbrev half_out : Fb
half_out = fb_fill_rect (negsuc 1) (pos 1) (pos 3) (pos 9) 0x010203 blank

half_out-inside : target half_out 32 ≡ 3
unfolding fb_fill_rect fill_rect fill_rows fill_row put_bgr set_byte clip offset target on_target
    ◌+ℤ◌ ◌-ℤ◌ int32
half_out-inside = refl

half_out-outside : target half_out 35 ≡ 7
unfolding fb_fill_rect fill_rect fill_rows fill_row put_bgr set_byte clip offset target on_target
    ◌+ℤ◌ ◌-ℤ◌ int32
half_out-outside = refl

across : Fits (negsuc 1) (pos 3)
unfolding ◌+ℤ◌
across = record {
  start = record { most = omega arith; least = omega arith };
  extent = record { most = omega arith; least = omega arith };
  end = record { most = omega arith; least = omega arith };
}

downwards : Fits (pos 1) (pos 9)
unfolding ◌+ℤ◌
downwards = record {
  start = record { most = omega arith; least = omega arith };
  extent = record { most = omega arith; least = omega arith };
  end = record { most = omega arith; least = omega arith };
}

zero-IsNear : IsNear (pos 0)
zero-IsNear = record { right = omega arith; left = omega arith }

two-IsNear : IsNear (pos 2)
two-IsNear = record { right = omega arith; left = omega arith }

three-IsNear : IsNear (pos 3)
three-IsNear = record { right = omega arith; left = omega arith }

minus_two-IsNear : IsNear (negsuc 1)
minus_two-IsNear = record { right = omega arith; left = omega arith }

fb_fill_rect-Paints_example :
    Paints small
      (λ px py. within (negsuc 1) (pos 3) px && within (pos 1) (pos 9) py)
      0x010203
      (target blank)
      (target half_out)
fb_fill_rect-Paints_example =
    fb_fill_rect-Paints (negsuc 1) (pos 1) (pos 3) (pos 9) 0x010203 blank small-IsMode (omega arith)
      (omega arith) across downwards

fb_line-ends_example :
    (fb' : Fb) × (fb_line (pos 3) (pos 0) (negsuc 1) (pos 2) 0x010203 blank ≡ some fb')
fb_line-ends_example =
    fb_line-ends (pos 3) (pos 0) (negsuc 1) (pos 2) 0x010203 blank three-IsNear zero-IsNear
      minus_two-IsNear two-IsNear

isqrt-17 : isqrt 17 ≡ 4
unfolding isqrt isqrt_from
isqrt-17 = refl
