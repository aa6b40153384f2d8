-- ===== src/Downloads.antt =====
-- router/downloader/downloader.go and the handlers of remote downloads in router/router_server_files.go:
-- which downloads are tracked, and for which server.
pub mod Tracking
pub mod Removal
pub mod Requests
mod Examples
use feathers.Prelude.{
  Bool, true, false, ◌&&◌, Option, none, some, List, [], ◌∷◌, ◌++◌, length, leb, if◌then◌else◌,
}
use feathers.Prelude.Text.{Text, text_eq}
use feathers.Prelude.TextMap.{find_key, set_key, delete_key}

-- `Download`, with what is asked of it here: its identifier and the identifier of its server.
pub record Download : Type 0 where
  pub identifier : Text
  pub server : Text

-- `Downloader`
pub record Downloader : Type 0 where
  pub download_cache : List (Text × Download)
  pub server_cache : List (Text × List Text)

abbrev pub instance_empty : Downloader
instance_empty = record { download_cache = []; server_cache = [] }

abbrev pub or_empty : Option (List Text) → List Text
or_empty none = []
or_empty (some ids) = ids

unfoldable pub track_new : Download → Option Download → Downloader → Downloader
unfolding set_key find_key
track_new dl (some old) d = d
track_new dl none d = record {
  download_cache = set_key dl.identifier dl d.download_cache;
  server_cache =
      set_key dl.server (or_empty (find_key dl.server d.server_cache) ++ dl.identifier ∷ [])
        d.server_cache;
}

-- `track`
unfoldable pub track : Download → Downloader → Downloader
unfolding track_new find_key
track dl d = track_new dl (find_key dl.identifier d.download_cache) d

-- `find`, also `ByID`
unfoldable pub find : Text → Downloader → Option Download
unfolding find_key
find id d = find_key id d.download_cache

unfoldable pub without : Text → List Text → List Text
unfolding text_eq
without id [] = []
without id (k ∷ ks) = let rest = without id ks in if text_eq k id then rest else k ∷ rest

unfoldable pub untrack :
    Text → Text → Option (List Text) → List (Text × List Text) → List (Text × List Text)
unfolding without set_key
untrack id sid none m = m
untrack id sid (some tracked) m = set_key sid (without id tracked) m

unfoldable pub remove_found : Text → Option Download → Downloader → Downloader
unfolding untrack find_key delete_key
remove_found id none d = d
remove_found id (some dl) d = record {
  download_cache = delete_key id d.download_cache;
  server_cache = untrack id dl.server (find_key dl.server d.server_cache) d.server_cache;
}

-- `remove`; `Cancel` also cancels the context of the request.
unfoldable pub remove : Text → Downloader → Downloader
unfolding remove_found find_key
remove id d = remove_found id (find_key id d.download_cache) d

append_found : Option Download → List Download → List Download
append_found none rest = rest
append_found (some dl) rest = dl ∷ rest

unfoldable pub downloads_of : List Text → Downloader → List Download
unfolding append_found find_key
downloads_of [] d = []
downloads_of (id ∷ ids) d = append_found (find_key id d.download_cache) (downloads_of ids d)

-- `ByServer`
unfoldable pub by_server : Text → Downloader → List Download
unfolding downloads_of find_key
by_server sid d = downloads_of (or_empty (find_key sid d.server_cache)) d

-- Whether there is space, and whether the server has three downloads.
unfoldable pub pull_if : Bool → Bool → Download → Downloader → Bool × Downloader
unfolding track
pull_if false full dl d = (false, d)
pull_if true true dl d = (false, d)
pull_if true false dl d = (true, track dl d)

-- `postServerPullRemoteFile` from the check of the space on: whether the download was started, with the
-- identifier that it got.
unfoldable pub pull : Bool → Download → Downloader → Bool × Downloader
unfolding by_server pull_if
pull has_space dl d = pull_if has_space (leb 3 (length (by_server dl.server d))) dl d

unfoldable pub cancel_found : Text → Text → Option Download → Downloader → Downloader
unfolding remove text_eq
cancel_found sid id none d = d
cancel_found sid id (some dl) d = if text_eq dl.server sid then remove id d else d

-- `deleteServerPullRemoteFile`, for a server
unfoldable pub cancel : Text → Text → Downloader → Downloader
unfolding cancel_found find
cancel sid id d = cancel_found sid id (find id d) d
