-- ===== src/Markup/Tests.antt =====
-- A word in bold.
use weechat_xmpp_improved.Prelude.{
  ◌≡◌, ◌≢◌, inl, none, some, [], ◌∷◌, List, String, Bytes, codes, arith, skip_space, is_space,
  read_digits,
}
use weechat_xmpp_improved.Markup.{
  Mark, Event, all_events, mark_events, span_events, named_events, range, get_long_attr, span_codes,
  style_codes, style_of_item, enclose, cp_byte, cp_table, width, apply_xep394_markup, Sorted,
}
use weechat_xmpp_improved.Markup.Weave.{weave}
use weechat_xmpp_improved.Markup.Offsets.{apply_xep394_markup-weave}

abbrev named_color : String → Bytes
named_color c = codes c

abbrev strong : List Mark
strong =
    record {
      name = some "span";
      start = some (codes "0");
      stop = some (codes "2");
      items = record { name = some "strong"; start = none } ∷ [];
    }
    ∷ []

abbrev same : List Event → List Event
same es = es

words-ne-nil : codes "hi all" ≢ []
words-ne-nil = cc

strong-Sorted : Sorted (same (all_events named_color (codes "hi all") strong))
unfolding all_events mark_events named_events span_events range get_long_attr span_codes style_codes
    style_of_item enclose cp_byte cp_table width skip_space is_space read_digits
strong-Sorted = ((inl (omega arith), tt), (tt, tt))

apply_xep394_markup-weave_example :
    apply_xep394_markup named_color same (codes "hi all") (some strong)
    ≡ weave 0 (codes "hi all") (same (all_events named_color (codes "hi all") strong))
apply_xep394_markup-weave_example =
    apply_xep394_markup-weave named_color same (codes "hi all") strong words-ne-nil strong-Sorted
      (λ P h. h)
