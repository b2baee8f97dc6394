-- ===== src/Cache/FileHandler.antt =====
-- `FileProtocolHandler.public_path` of handlers/file.py: from the url of a project file back to the
-- path under which requests name it.
use qjazz.Prelude.{String, none, some}
use qjazz.Prelude.Exec.{Result, ok, raise, value_error}
use qjazz.Cache.Common.{Url, Texts}
use qjazz.Cache.Paths.{parse, print, relative_to, join}

-- public_path, for a `SplitResult`
unfoldable pub public_path : Url → String → Url → Result String
public_path url location rooturl = elim (relative_to (parse url.path) (parse rooturl.path)) [
  | none ↦ raise (value_error "path is not in the subpath of the root")
  | some rel ↦ ok (print (join (parse location) rel))
]

-- public_path, for a text
unfoldable pub public_path_of : Texts → String → String → Url → Result String
unfolding public_path
public_path_of t uri location rooturl = public_path (t.urlsplit uri) location rooturl
