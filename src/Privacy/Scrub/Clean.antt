-- ===== src/Privacy/Scrub/Clean.antt =====
-- internal/privacy/raw.go: ScrubRaw over the files of a walk.
use dayz_behaviour.Prelude.{◌≡◌, true, List, [], ◌∷◌, String}
use dayz_behaviour.Prelude.Extension.{has_extension}
use dayz_behaviour.Disk.{Disk}
use dayz_behaviour.Privacy.{ScrubLib}
use dayz_behaviour.Privacy.Scrub.{Walked, unreadable, file}
use dayz_behaviour.Privacy.Scrub.Files.{IsApart, AllApartFrom, HasOwnNames, IsScrubbed}

-- no two of the files that are walked meet, nor those that their scrubs write
abbrev pub AllKeptBy : Walked → List Walked → Type 0
AllKeptBy w [] = Unit
AllKeptBy w (unreadable ∷ ws) = AllKeptBy w ws
AllKeptBy w (file q g ∷ ws) = IsApart q w × AllKeptBy w ws

abbrev pub AllApart : List Walked → Type 0
AllApart [] = Unit
AllApart (unreadable ∷ ws) = AllApart ws
AllApart (file p f ∷ ws) =
    HasOwnNames p f × AllApartFrom p ws × AllKeptBy (file p f) ws × AllApart ws

abbrev pub AllScrubbed : ScrubLib → (String → String) → String → Disk → Disk → List Walked → Type 0
AllScrubbed lib compact identity d d' [] = Unit
AllScrubbed lib compact identity d d' (unreadable ∷ ws) = AllScrubbed lib compact identity d d' ws
AllScrubbed lib compact identity d d' (file p f ∷ ws) =
    (has_extension ".json" p ≡ true → IsScrubbed lib compact identity d d' p)
    × AllScrubbed lib compact identity d d' ws
