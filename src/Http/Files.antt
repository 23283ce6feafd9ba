-- ===== src/Http/Files.antt =====
-- The static files of src/api/server.c. A missing text is `none`.
pub mod Inside
use airies_ups_c.Base.{
  ℕ, Bool, not, ◌&&◌, Option, none, some, List, [], ◌∷◌, ◌++◌, ◌==◌, if◌then◌else◌, take,
}
use airies_ups_c.Base.Text.{bytes, starts_with, strstr, is_some}
use airies_ups_c.Auth.{same_text}

-- What is served for a path that no route has: an embedded file, or a file of the disk with its type.
pub data Served : Type 0 where
  asset : List ℕ → Served
  file : (path : List ℕ) → (content_type : List ℕ) → (content : List ℕ) → Served

-- strrchr: the text from the last `c` on.
pub strrchr : ℕ → List ℕ → Option (List ℕ)
strrchr c [] = none
strrchr c (d ∷ text) = elim (strrchr c text) [
  | some later ↦ some later
  | none ↦ if d == c then some (d ∷ text) else none
]

abbrev pub octet_stream : List ℕ
octet_stream = bytes "application/octet-stream"

pub type_of_extension : Option (List ℕ) → List ℕ
unfolding same_text
type_of_extension none = octet_stream
type_of_extension (some ext) =
    if same_text ext (bytes ".html")
    then bytes "text/html"
    else if same_text ext (bytes ".js")
    then bytes "application/javascript"
    else if same_text ext (bytes ".css")
    then bytes "text/css"
    else if same_text ext (bytes ".json")
    then bytes "application/json"
    else if same_text ext (bytes ".png")
    then bytes "image/png"
    else if same_text ext (bytes ".svg")
    then bytes "image/svg+xml"
    else if same_text ext (bytes ".ico")
    then bytes "image/x-icon"
    else octet_stream

abbrev pub is_root : List ℕ → Bool
is_root url = same_text url (bytes "/")

-- `char path[512]` and the two calls of snprintf.
pub static_path : List ℕ → List ℕ → List ℕ
unfolding same_text
static_path static_dir url =
    take 511 (static_dir ++ (if is_root url then bytes "/index.html" else url))

-- What the build and the disk give: the embedded files, if the build has them, and the content of the
-- file at a path, if it can be opened.
pub record Sources : Type 0 where
  pub embedded : List ℕ → Bool
  pub disk : List ℕ → Option (List ℕ)

pub serve_embedded : Sources → List ℕ → Option Served
unfolding same_text
serve_embedded files url =
    let lookup = if is_root url then bytes "/index.html" else url in
    if files.embedded lookup then some (asset lookup) else none

pub read_content : List ℕ → Option (List ℕ) → Option Served
unfolding strrchr type_of_extension
read_content path none = none
read_content path (some []) = none
read_content path (some (c ∷ content)) =
    some (file path (type_of_extension (strrchr 46 path)) (c ∷ content))

pub read_file : Sources → List ℕ → Option Served
unfolding read_content
read_file files path = read_content path (files.disk path)

-- The disk, once the embedded files have no answer.
serve_disk : Sources → List ℕ → Option (List ℕ) → Option Served
unfolding strstr static_path read_file
serve_disk files url none = none
serve_disk files url (some static_dir) =
    if is_some (strstr url (bytes "..")) then none else read_file files (static_path static_dir url)

pub try_serve_static : Sources → List ℕ → Option (List ℕ) → Option Served
unfolding serve_embedded serve_disk
try_serve_static files url static_dir = elim (serve_embedded files url) [
  | some served ↦ some served
  | none ↦ serve_disk files url static_dir
]

-- The fallback to the page of the single-page application.
pub spa_fallback : Sources → List ℕ → Option (List ℕ) → Option Served
unfolding starts_with try_serve_static strrchr
spa_fallback files url static_dir =
    if is_some static_dir && not (starts_with url (bytes "/api/")) && not (is_some (strrchr 46 url))
    then try_serve_static files (bytes "/") static_dir
    else none
