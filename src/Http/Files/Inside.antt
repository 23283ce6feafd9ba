-- ===== src/Http/Files/Inside.antt =====
-- Which files src/api/server.c serves.
use airies_ups_c.Base.{
  ℕ, ◌≡◌, refl, Bool, true, false, not, ◌&&◌, inl, inr, Option, none, some, List, [], ◌∷◌, ◌++◌,
  take, Bool-cases, if◌then◌else◌,
}
use airies_ups_c.Base.Text.{bytes, strstr, strstr-none, starts_with, is_some}
use airies_ups_c.Http.Files.{
  Served, asset, file, is_root, static_path, Sources, serve_embedded, read_content, read_file,
  strrchr, serve_disk, try_serve_static, spa_fallback,
}

abbrev pub NoDots : List ℕ → Type 0
NoDots text = (front back : List ℕ) → text ≡ front ++ (bytes ".." ++ back) → ⊥

-- An embedded file that there is, or a file below the directory: the path is the directory and a text
-- without two dots in a row, cut after 511 bytes, and the content is that of the file there.
abbrev pub Inside : Sources → Option (List ℕ) → Served → Type 0
Inside files static_dir (asset name) = files.embedded name ≡ true
Inside files static_dir (file path content_type content) =
    (dir : List ℕ) × (rest : List ℕ) × (static_dir ≡ some dir)
    × (path ≡ take 511 (dir ++ rest))
    × NoDots rest
    × (files.disk path ≡ some content)

abbrev pub IfInside : Sources → Option (List ℕ) → Option Served → Type 0
IfInside files static_dir none = Unit {0}
IfInside files static_dir (some s) = Inside files static_dir s

content-Inside :
    (files : Sources) (dir rest path : List ℕ) (content : Option (List ℕ))
    → files.disk path ≡ content
    → path ≡ take 511 (dir ++ rest)
    → NoDots rest
    → IfInside files (some dir) (read_content path content)
unfolding read_content
content-Inside files dir rest path none e p h = tt
content-Inside files dir rest path (some []) e p h = tt
content-Inside files dir rest path (some (c ∷ content)) e p h = (dir, rest, refl, p, h, e)

read-Inside :
    (files : Sources) (dir rest path : List ℕ)
    → path ≡ take 511 (dir ++ rest)
    → NoDots rest
    → IfInside files (some dir) (read_file files path)
unfolding read_file
read-Inside files dir rest path p h = content-Inside files dir rest path (files.disk path) refl p h

-- The part of a path after the directory.
abbrev below : Bool → List ℕ → List ℕ
below root url = if root then bytes "/index.html" else url

below-NoDots :
    (root : Bool) (url : List ℕ) → strstr url (bytes "..") ≡ none → NoDots (below root url)
unfolding strstr starts_with
below-NoDots true url h front back e =
    strstr-none (bytes "/index.html") (bytes "..") front back refl e
below-NoDots false url h front back e = strstr-none url (bytes "..") front back h e

disk-Inside :
    (files : Sources) (url : List ℕ) (static_dir : Option (List ℕ)) (dots : Option (List ℕ))
    → strstr url (bytes "..") ≡ dots
    → IfInside files static_dir (serve_disk files url static_dir)
unfolding serve_disk static_path
disk-Inside files url none dots e = tt
disk-Inside files url (some dir) (some l) e = rw e tt
disk-Inside files url (some dir) none e =
    rw e (read-Inside files dir (below (is_root url) url) _ refl (below-NoDots (is_root url) url e))

embedded-Inside :
    (files : Sources) (url : List ℕ) (static_dir : Option (List ℕ))
    → IfInside files static_dir (serve_embedded files url)
unfolding serve_embedded
embedded-Inside files url static_dir = there (if is_root url then bytes "/index.html" else url)
  where
    there :
        (name : List ℕ)
        → IfInside files static_dir (if files.embedded name then some (asset name) else none)
    there name = elim (Bool-cases (files.embedded name)) [ inl e ↦ rw e e | inr e ↦ rw e tt ]

either-Inside :
    (files : Sources) (static_dir : Option (List ℕ)) (first second : Option Served)
    → IfInside files static_dir first
    → IfInside files static_dir second
    → IfInside files static_dir (elim first [ some served ↦ some served | none ↦ second ])
either-Inside files static_dir none second h k = k
either-Inside files static_dir (some s) second h k = h

pub try_serve_static-Inside :
    (files : Sources) (url : List ℕ) (static_dir : Option (List ℕ))
    → IfInside files static_dir (try_serve_static files url static_dir)
unfolding try_serve_static
try_serve_static-Inside files url static_dir =
    either-Inside files static_dir (serve_embedded files url) (serve_disk files url static_dir)
      (embedded-Inside files url static_dir) (disk-Inside files url static_dir _ refl)

pub spa_fallback-Inside :
    (files : Sources) (url : List ℕ) (static_dir : Option (List ℕ))
    → IfInside files static_dir (spa_fallback files url static_dir)
unfolding spa_fallback
spa_fallback-Inside files url static_dir =
    only_if
      (is_some static_dir
        && not (starts_with url (bytes "/api/"))
        && not (is_some (strrchr 46 url)))
      (try_serve_static files (bytes "/") static_dir)
      (try_serve_static-Inside files (bytes "/") static_dir)
  where
    only_if :
        (b : Bool) (s : Option Served)
        → IfInside files static_dir s
        → IfInside files static_dir (if b then s else none)
    only_if true s h = h
    only_if false s h = tt
