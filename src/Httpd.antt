-- ===== src/Httpd.antt =====
-- esp8266/app/httpd.c: the handlers, the dispatch of a request, chunks and parameters. The calls
-- of the SDK's `espconn` are the effects that a callback returns, in order.
pub mod Params
pub mod Dispatch
pub mod Listen
mod Tests
use esp8266_xcode.Base.{
  ℕ, zero, suc, ◌+◌, ◌-◌, ◌%◌, List, [], ◌∷◌, ◌++◌, Option, none, some, Bool, true, false, ◌==◌,
  ◌&&◌, ltb, not, if◌then◌else◌, length, take, drop,
}
use esp8266_xcode.Lost.Text.{c_str, strsep, strdup}
use esp8266_xcode.Lost.Number.{strtol}

-- The equality of texts (`strcmp(a, b) == 0`), and `strncmp(a, b, strlen(a)) == 0`.
abbrev pub text_eq : List ℕ → List ℕ → Bool
text_eq [] [] = true
text_eq [] (y ∷ ys) = false
text_eq (x ∷ xs) [] = false
text_eq (x ∷ xs) (y ∷ ys) = (x == y) && text_eq xs ys

abbrev pub starts_with : List ℕ → List ℕ → Bool
starts_with [] ys = true
starts_with (x ∷ xs) [] = false
starts_with (x ∷ xs) (y ∷ ys) = (x == y) && starts_with xs ys

-- `struct httpd_handler`. The functions that can be registered are those of a type `F`, and the
-- list of nodes from `httpd_handlers` on is a list.
pub record Handler {ℓ} (F : Type ℓ) : Type ℓ where
  pub url : List ℕ
  pub type : Option (List ℕ)
  pub handler : F

module _ {ℓ} {F : Type ℓ} where
  -- The loop over the nodes: the one with this URL is overwritten.
  replace : List ℕ → Option (List ℕ) → F → List (Handler F) → Option (List (Handler F))
  replace url type handler [] = none
  replace url type handler (node ∷ nodes) =
      if text_eq node.url url
      then some ((record { url = url; type = type; handler = handler }) ∷ nodes)
      else elim (replace url type handler nodes) [ none ↦ none | some l ↦ some (node ∷ l) ]

  -- `url` and `handler` are not null.
  unfoldable pub httpd_regist : List ℕ → Option (List ℕ) → F → List (Handler F) → List (Handler F)
  unfolding replace
  httpd_regist url type handler nodes = elim (replace url type handler nodes) [
    | some l ↦ l
    | none ↦ (record { url = url; type = type; handler = handler }) ∷ nodes
  ]

  -- The loop of `httpd_server_recv`: the first node whose URL begins the one that is asked for.
  unfoldable pub find_handler : List ℕ → List (Handler F) → Option (Handler F)
  find_handler url [] = none
  find_handler url (node ∷ nodes) =
      if starts_with node.url url then some node else find_handler url nodes
