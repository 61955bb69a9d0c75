-- ===== src/Digest/Html.antt =====
-- src/digest.rs: the text of an HTML part. `to_lowercase` stands for the standard library's, which
-- has Unicode's tables.
use ruzor.Prelude.{
  ◌≡◌, refl, Bool, true, false, not, ◌&&◌, ◌||◌, List, [], ◌∷◌, ◌++◌, ◌==◌, if◌then◌else◌,
}
use ruzor.Text.{
  Text, codes, eq_text, is_empty, join, replace, starts_with, split_whitespace, trim, trim_start,
}

-- `html_unescape`
unfoldable pub html_unescape : Text → Text
html_unescape value = replace (codes "&#39;") (codes "'") (
    replace (codes "&quot;") (codes "\"") (
      replace (codes "&gt;") (codes ">") (
        replace (codes "&lt;") (codes "<")
          (replace (codes "&amp;") (codes "&") (replace (codes "&nbsp;") (codes " ") value)))))

-- what `push_html_text` adds
html_text : Text → Bool → List Text
html_text text collect =
    let trimmed = trim text in
    if collect && not (is_empty trimmed) then html_unescape trimmed ∷ [] else []

abbrev trim_slashes_start : Text → Text
trim_slashes_start [] = []
trim_slashes_start (c ∷ s) = if c == b'/' then trim_slashes_start s else c ∷ s

trim_slashes_end : Text → Text
trim_slashes_end [] = []
trim_slashes_end (c ∷ s) =
    let rest = trim_slashes_end s in if c == b'/' && is_empty rest then [] else c ∷ rest

abbrev first_or_empty : List Text → Text
first_or_empty [] = []
first_or_empty (word ∷ words) = word

module _ (to_lowercase : Text → Text) where
  -- `tag_name`
  tag_name : Text → Text
  unfolding trim_slashes_end
  tag_name tag = to_lowercase (
      trim_slashes_end
        (trim_slashes_start (first_or_empty (split_whitespace (trim_slashes_start tag)))))

  -- does the text behind a tag count?
  abbrev collect_behind : Text → Bool → Bool
  collect_behind tag collect =
      let name = tag_name tag in
      if eq_text name (codes "script") || eq_text name (codes "style")
      then starts_with (codes "/") (trim_start tag)
      else collect

  -- the loop: inside a tag, and outside of one
  html_onto : Bool → Text → Text → Bool → Text → List Text
  unfolding html_text tag_name
  html_onto in_tag text tag collect [] = html_text text collect
  html_onto false text tag collect (c ∷ s) =
      let opens = c == b'<' in
      let rest =
        html_onto opens (if opens then [] else text ++ c ∷ []) (if opens then [] else tag) collect
          s in
      if opens then html_text text collect ++ rest else rest
  html_onto true text tag collect (c ∷ s) =
      let closes = c == b'>' in
      html_onto (not closes) text (if closes then tag else tag ++ c ∷ [])
        (if closes then collect_behind tag collect else collect) s

  -- `normalize_html_part`
  unfoldable pub normalize_html_part : Text → Text
  unfolding html_onto
  normalize_html_part input = join (codes " ") (html_onto false [] [] true input)

unescape_test : html_unescape (codes "&amp;lt;") ≡ codes "<"
unfolding html_unescape replace
unescape_test = refl
