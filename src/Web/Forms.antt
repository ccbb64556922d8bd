-- ===== src/Web/Forms.antt =====
-- What a form of esp8266/web/system.cpp leaves in the file system.
use esp8266_xcode.Base.{
  ℕ, ◌≢◌, List, [], ◌∷◌, ◌++◌, some, Bool, true, ◌≡◌, append_assoc, refl, sym, length, All, map,
}
use esp8266_xcode.Base.Strings.{codes}
use esp8266_xcode.Httpd.Dispatch.{httpd_redirect, Event}
use esp8266_xcode.Httpd.Params.Escapes.{Quotes, Free}
use esp8266_xcode.Httpd.Params.RoundTrip.{IsPair, query, httpd_parameter_parse-query}
use esp8266_xcode.Fs.Lines.{End, lf, file_of}
use esp8266_xcode.Fs.Files.{Lfs, mode_flags, wronly, creat, trunc, fs_open, fs_write, fs_close}
use esp8266_xcode.Web.{Form, file_name, takes, text_of, save, write_and_close, web_form}

-- Every parameter is one that the form takes.
abbrev pub AllTaken : Form → List (List ℕ × List ℕ) → Type 0
AllTaken form ps = All (λ p. takes form p.0 ≡ true) ps

-- The values as lines.
unfoldable pub values : List (List ℕ × List ℕ) → List (List ℕ × End)
values ps = map (λ p. (p.1, lf)) ps

-- The text of a form has a line for each parameter.
pub text_of-values :
    (form : Form) (ps : List (List ℕ × List ℕ))
    → AllTaken form ps
    → text_of form ps ≡ file_of (values ps)
unfolding text_of file_of values
text_of-values form [] h = refl
text_of-values form ((key, value) ∷ ps) h =
    rw (h.0, text_of-values form ps h.1) (sym (append_assoc value (10 ∷ []) _))

module _ (lfs : Lfs) where
  open lfs use {Store, File, file_open, file_write, content, write_new}

  -- The file can be made, and the whole text is written.
  pub record Accepts (form : Form) (text : List ℕ) (s : Store) : Type 0 where
    pub file : File
    pub store : Store
    pub opened : file_open (file_name form) (wronly ∷ creat ∷ trunc ∷ []) s ≡ some (file, store)
    pub complete : (file_write text file store).0 ≡ some (length text)

  save-Accepts :
      (form : Form) (text : List ℕ) (s : Store)
      → Accepts form text s
      → (content (file_name form) (save lfs form text s) ≡ some text)
        × ((other : List ℕ)
            → other ≢ file_name form
            → content other (save lfs form text s) ≡ content other s)
  unfolding save write_and_close fs_open mode_flags fs_write fs_close
  save-Accepts form text s a =
      rw (save, fs_open, mode_flags, a.opened)
        (write_new (file_name form) text s a.store a.file a.opened a.complete)

  -- For the URL of a form, whose path and keys hold no separator, whose values are escaped, and
  -- whose parameters are all ones that the form takes, where the file can be made and written:
  -- the form redirects to the page, its file holds a line for each value, and every other file
  -- is as it was.
  pub web_form-query :
      (quote : ℕ → Bool) (quotes : Quotes quote) (form : Form) (path : List ℕ)
      (ps : List (List ℕ × List ℕ)) (s : Store)
      → All Free path
      → All IsPair ps
      → AllTaken form ps
      → Accepts form (file_of (values ps)) s
      → (s' : Store) × (events : List Event) × (web_form lfs form
            (path ++ (b'?' ∷ query quote quotes ps))
            s
          ≡ some (events, s'))
        × (httpd_redirect (codes "/") ≡ some events)
        × (content (file_name form) s' ≡ some (file_of (values ps)))
        × ((other : List ℕ) → other ≢ file_name form → content other s' ≡ content other s)
  unfolding web_form httpd_redirect
  web_form-query quote quotes form path ps s free pairs taken accepts =
      let text = text_of-values form ps taken in
      let (own, others) = save-Accepts form (file_of (values ps)) s accepts in
      (
        save lfs form (file_of (values ps)) s,
        _,
        rw (web_form, httpd_parameter_parse-query quote quotes path ps free pairs, text),
        refl,
        own,
        others,
      )
