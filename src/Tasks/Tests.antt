-- ===== src/Tasks/Tests.antt =====
-- The task list on a concrete text.
use mathlib.Core.List.{head?, tail}
use ecwid_console_downloader.Base.{◌≡◌, refl, false, some, List, [], ◌∷◌, map, codes, All}
use ecwid_console_downloader.Tasks.{Task, Source, get, is_empty, is_space}
use ecwid_console_downloader.Tasks.Lines.{remaining, get-remaining}
use ecwid_console_downloader.Tasks.RoundTrip.{
  IsWord, AreWords, render, written, get_all, get_all-render,
}

abbrev text : Source
text = record { rest = codes "\n http://a/x x.bin\nbroken\nhttp://b/y y.bin"; eof = false }

get-remaining_example :
    (s : Source) × (get (codes "out/") text ≡ some (head? (remaining (codes "out/") text), s))
    × (remaining (codes "out/") s ≡ tail (remaining (codes "out/") text))
get-remaining_example = get-remaining (codes "out/") text

abbrev pair : List Task
pair =
    record { uri = codes "http://a/x"; fname = codes "x" }
    ∷ record { uri = codes "http://b/y"; fname = codes "y" }
    ∷ []

link-IsWord : IsWord (codes "http://a/x") × IsWord (codes "http://b/y")
unfolding is_empty is_space
link-IsWord = (
  record {
    filled = refl;
    black = (refl, (refl, (refl, (refl, (refl, (refl, (refl, (refl, (refl, (refl, tt))))))))));
  },
  record {
    filled = refl;
    black = (refl, (refl, (refl, (refl, (refl, (refl, (refl, (refl, (refl, (refl, tt))))))))));
  },
)

name-IsWord : IsWord (codes "x") × IsWord (codes "y")
unfolding is_empty is_space
name-IsWord =
    (record { filled = refl; black = (refl, tt) }, record { filled = refl; black = (refl, tt) })

pair-AreWords : All AreWords pair
pair-AreWords = ((link-IsWord.0, name-IsWord.0), ((link-IsWord.1, name-IsWord.1), tt))

get_all-render_example :
    get_all 3 (codes "out/") (record { rest = render pair; eof = false })
    ≡ some (map (written (codes "out/")) pair)
get_all-render_example = get_all-render (codes "out/") pair pair-AreWords
