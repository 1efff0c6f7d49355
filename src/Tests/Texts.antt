-- ===== src/Tests/Texts.antt =====
-- Runs of the text operations.
use merger.Prelude.{◌≡◌, refl, true, false, [], ◌∷◌}
use merger.Text.{lit, trim_space, contains, split, is_blank}

trims_both_ends : trim_space (lit "  a b ") ≡ lit "a b"
unfolding trim_space lit
trims_both_ends = refl

case_matters : contains (lit "internal/Auth/x.go") (lit "auth/") ≡ false
unfolding contains lit
case_matters = refl

empty_part : split b'/' (lit "a/b//c") ≡ lit "a" ∷ lit "b" ∷ [] ∷ lit "c" ∷ []
unfolding split lit
empty_part = refl

blank_text : is_blank (lit "  ") ≡ true
unfolding is_blank lit
blank_text = refl

padded_text : is_blank (lit " a ") ≡ false
unfolding is_blank lit
padded_text = refl
