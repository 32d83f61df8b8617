-- ===== src/Constants/TaskType.antt =====
-- backend/common/constants.py: class TaskType.
use distributed_asynchronous.Prelude.{String, List, [], ◌∷◌}

abbrev pub http : String
http = "http"

abbrev pub shell : String
shell = "shell"

abbrev pub http_async : String
http_async = "http_async"

abbrev pub all : List String
all = http ∷ shell ∷ http_async ∷ []
