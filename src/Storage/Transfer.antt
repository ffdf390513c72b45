-- ===== src/Storage/Transfer.antt =====
-- storage/client.go: what is uploaded can be downloaded.
use pi_bully.Prelude.{◌≡◌, refl, Option, none, some, ◌∙◌, sym, arith}
use pi_bully.Text.{Text, text_eq_refl}
use pi_bully.Storage.{Client, World, Env, parse_key, download, upload, receive, send, write, store}

-- An upload that answers no error has stored the contents of the file, and nothing else is changed.
pub upload-stores :
    (env : Env) (c : Client) (uri src : Text) (w : World)
    → (upload env c uri src w).1 ≡ none
    → (body : Text) × (w.files src ≡ some body)
      × ((upload env c uri src w).0 ≡ store c.bucket (parse_key uri) body w)
unfolding upload send
upload-stores env c uri src w h = go (w.files src) refl
  where
    go :
        (o : Option Text)
        → w.files src ≡ o
        → (body : Text) × (w.files src ≡ some body)
          × ((upload env c uri src w).0 ≡ store c.bucket (parse_key uri) body w)
    go none e = absurd (ground arith)
    go (some body) e = (body, e, ground arith)

pub download-writes :
    (env : Env) (c : Client) (uri dest : Text) (w : World)
    → (download env c uri dest w).1 ≡ none
    → (body : Text) × (w.objects c.bucket (parse_key uri) ≡ some body)
      × ((download env c uri dest w).0 ≡ write dest body w)
unfolding download receive
download-writes env c uri dest w h = go (w.objects c.bucket (parse_key uri)) refl
  where
    go :
        (o : Option Text)
        → w.objects c.bucket (parse_key uri) ≡ o
        → (body : Text) × (w.objects c.bucket (parse_key uri) ≡ some body)
          × ((download env c uri dest w).0 ≡ write dest body w)
    go none e = absurd (ground arith)
    go (some body) e = (body, e, ground arith)

pub stored_object :
    (bucket key body : Text) (w : World) → (store bucket key body w).objects bucket key ≡ some body
stored_object bucket key body w = ground (arith, text_eq_refl bucket, text_eq_refl key)

written_file : (path body : Text) (w : World) → (write path body w).files path ≡ some body
written_file path body w = ground (arith, text_eq_refl path)

-- What one node uploads, another downloads: under a URI with the same key, and for clients with the
-- same bucket, a download after the upload leaves in its file the contents of the uploaded file.
pub upload-download :
    (env env' : Env) (c d : Client) (uri uri' src dest : Text) (w : World)
    → (upload env c uri src w).1 ≡ none
    → c.bucket ≡ d.bucket
    → parse_key uri ≡ parse_key uri'
    → (download env' d uri' dest (upload env c uri src w).0).1 ≡ none
    → (download env' d uri' dest (upload env c uri src w).0).0.files dest ≡ w.files src
upload-download env env' c d uri uri' src dest w up same_bucket same_key down =
    let (body, read, after) = upload-stores env c uri src w up in
    let (got, found, result) = download-writes env' d uri' dest (upload env c uri src w).0 down in
    let there : (upload env c uri src w).0.objects d.bucket (parse_key uri') ≡ some body =
      rw (after, ← same_bucket, ← same_key) (stored_object c.bucket (parse_key uri) body w) in
    let same : some got ≡ some body = sym found ∙ there in
    rw (result, read) (written_file dest got (upload env c uri src w).0 ∙ same)
