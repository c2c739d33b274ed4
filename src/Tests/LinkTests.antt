-- ===== src/Tests/LinkTests.antt =====
-- Runs of `getLinkAt` on a row of text, and its theorem applied at it.
use fish_term.Prelude.{◌≡◌, refl, true, ◌⊎◌, List, [], ◌∷◌, pos, Bytes, codes, take}
use fish_term.Utf8.{utf8}
use fish_term.Terminal.Cells.{narrow, VtCell}
use fish_term.Terminal.Selection.{View}
use fish_term.Terminal.Links.{
  link_start, link_end, trim_url_token, delimiter_at, line_text, get_link_at,
}
use fish_term.Terminal.Links.Found.{IsLink, get_link_at-IsLink}

abbrev cells_of : Bytes → List VtCell
cells_of [] = []
cells_of (b ∷ bs) = record { codepoint = b; width = narrow; has_text = true } ∷ cells_of bs

abbrev page : View
page = record {
  cols = 30;
  rows = 1;
  top = 0;
  grid = cells_of (codes "see (http://a.b/c). end") ∷ [];
}

run_link : get_link_at page (pos 0) (pos 8) ≡ codes "http://a.b/c"
unfolding get_link_at link_start link_end trim_url_token delimiter_at utf8
run_link = refl

run_word : get_link_at page (pos 0) (pos 1) ≡ []
unfolding get_link_at link_start link_end trim_url_token delimiter_at utf8
run_word = refl

get_link_at-IsLink_example :
    (get_link_at page (pos 0) (pos 8) ≡ [])
    ⊎ IsLink
        (line_text (take 30 (cells_of (codes "see (http://a.b/c). end"))))
        (get_link_at page (pos 0) (pos 8))
get_link_at-IsLink_example =
    get_link_at-IsLink page (pos 0) (pos 8) (cells_of (codes "see (http://a.b/c). end")) refl
