-- ===== src/Layout/Tests.antt =====
-- Runs of the scan on concrete bytes.
use bboot.Base.{◌≡◌, refl, false, codes}
use bboot.Layout.{
  skip_lead, trim_line, trim_tail, upto_end, scan, line, ended, unterminated, keyword, argument,
  base_name, starts, has_slash, skip_blanks, spc_or_cr,
}

scan_line : scan 20 (codes " \tLABEL a \nEXEC b") ≡ line (codes "LABEL a ") (codes "EXEC b")
unfolding scan skip_lead upto_end spc_or_cr
scan_line = refl

scan_unterminated : scan 20 (codes "LABEL") ≡ unterminated
unfolding scan skip_lead upto_end spc_or_cr
scan_unterminated = refl

scan_past : scan 0 (codes "LABEL\n") ≡ ended
unfolding scan
scan_past = refl

trims : trim_line (codes "MODULE K/a \t ") ≡ codes "MODULE K/a"
unfolding trim_line trim_tail spc_or_cr
trims = refl

needs_blank : keyword (codes "LABELS a") (codes "LABEL") ≡ false
unfolding keyword starts
needs_blank = refl

argument_of : argument 6 (codes "MODULE \tK/a") ≡ codes "K/a"
unfolding argument skip_blanks
argument_of = refl

last_part : base_name (codes "Kickstart/sub/kernel") ≡ codes "kernel"
unfolding base_name has_slash
last_part = refl
