-- ===== src/Samples/GlobRuns.antt =====
-- Runs of the pattern matcher.
use redimos.Prelude.{ℕ, ◌≡◌, ◌↔◌, refl, true, false, List, codes, arith}
use redimos.Glob.{glob_match, string_match_len, drop_stars, any_suffix, match_class, scan_class}
use redimos.Glob.Language.{Matches}
use redimos.Glob.Matching.{glob_match_iff, string_match_len-enough}

abbrev pattern : List ℕ
pattern = codes "u*[a-c]?"

accepted : glob_match pattern (codes "user:b7") ≡ true
unfolding glob_match string_match_len drop_stars any_suffix match_class scan_class
accepted = refl

refused : glob_match pattern (codes "user:d7") ≡ false
unfolding glob_match string_match_len drop_stars any_suffix match_class scan_class
refused = refl

glob_match_iff_example :
    (glob_match pattern (codes "user:b7") ≡ true) ↔ Matches pattern (codes "user:b7")
glob_match_iff_example = glob_match_iff pattern (codes "user:b7")

string_match_len-enough_example :
    string_match_len 20 pattern (codes "user:b7") ≡ glob_match pattern (codes "user:b7")
string_match_len-enough_example = string_match_len-enough 20 pattern (codes "user:b7") (omega arith)
