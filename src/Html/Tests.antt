-- ===== src/Html/Tests.antt =====
-- Small HTML texts.
use weechat_xmpp_improved.Prelude.{◌≡◌, refl, some, ◌++◌, Bytes, codes, find, starts_with}
use weechat_xmpp_improved.Html.{html_strip_to_plain}
use weechat_xmpp_improved.Html.Layout.{tidy, IsTidy}
use weechat_xmpp_improved.Html.Loop.{html_strip_to_plain-IsTidy}
use weechat_xmpp_improved.Html.Escape.{escape, html_strip_to_plain-escape}
use weechat_xmpp_improved.Html.Script.{html_strip_to_plain_script}

html_strip_to_plain-IsTidy_example :
    (r : Bytes) × (html_strip_to_plain (codes "<p>a &amp; b</p><p>c") ≡ some r) × IsTidy r
html_strip_to_plain-IsTidy_example = html_strip_to_plain-IsTidy (codes "<p>a &amp; b</p><p>c")

html_strip_to_plain-escape_example :
    html_strip_to_plain (escape (codes "a < b & c")) ≡ some (tidy (codes "a < b & c"))
html_strip_to_plain-escape_example = html_strip_to_plain-escape (codes "a < b & c")

html_strip_to_plain_script_example :
    html_strip_to_plain (escape (codes "a") ++ (codes "<script" ++ codes ">x</script>b"))
    ≡ some (tidy (codes "a"))
html_strip_to_plain_script_example =
    html_strip_to_plain_script (codes "a") (codes ">x</script>b") (unfold find starts_with in refl)
