-- ===== src/Uploads/CreateTests.antt =====
-- Sessions that are created, repeated and raced for, at concrete inputs: internal/assets/service.go.
use asset_api.Base.{
  ℕ, zero, suc, append, false, ◌+◌, ◌*◌, String, ◌≡◌, refl, true, false, some, [], ◌∷◌, map, lookup,
  ◌==◌, if◌then◌else◌,
}
use asset_api.Errors.{ok, err, invalid_input, conflict}
use asset_api.Statuses.{completed}
use asset_api.Uploads.Policy.{policy_for, allows_size}
use asset_api.Uploads.Checks.{to_lower}
use asset_api.Uploads.Names.{
  extension_allowed, sanitize_file_name, base_name, trim_space, media_extensions,
}
use asset_api.Uploads.Create.{
  CreateUploadInput, Upload, CreateAnswers, CreatedUpload, left_out, new_asset, new_session,
  accepts, find_upload, create_new, create_upload_session,
}
use asset_api.Uploads.Created.{create_repeats}

cleaned_name : sanitize_file_name " folder/Week 1.pdf " ≡ "Week 1.pdf"
unfolding sanitize_file_name base_name trim_space
cleaned_name = refl

-- A name of 256 characters loses its extension, which the upload and the scan of the asset ask for again.
abbrev letters : ℕ → String → String
letters zero s = s
letters (suc n) s = append "a" (letters n s)

long_name :
    (extension_allowed (letters 252 ".pdf") "application/pdf" ≡ true)
    × (extension_allowed (sanitize_file_name (letters 252 ".pdf")) "application/pdf" ≡ false)
unfolding extension_allowed sanitize_file_name base_name trim_space media_extensions lookup to_lower
long_name = (refl, refl)

abbrev input : CreateUploadInput
input = record {
  namespace = "cms.weekly.pdf";
  owner_service = "hhc-web-api";
  owner_type = "weekly";
  owner_id = "7";
  purpose = "bulletin";
  locale = "";
  original_file_name = "week.PDF";
  expected_mime = "application/pdf";
  max_size_bytes = 1000;
  visibility = left_out;
}

abbrev answers : String → ℕ → CreateAnswers
answers id now = record {
  asset_id = id;
  session_id = "s";
  now = now;
  month = "2026/01";
  reads = true;
  reads_again = true;
  signs = true;
  rivals = [];
  cleaned = false;
  audits = true;
}

-- A digest that tells the sizes apart.
abbrev digest : CreateUploadInput → String
digest i = if i.max_size_bytes == 1000 then "f" else "g"

abbrev first_upload : Upload
first_upload = (new_asset (answers "a" 60) input, new_session (answers "a" 60) input "f" "k")

abbrev first_created : CreatedUpload
first_created = record {
  asset = first_upload.0;
  session = first_upload.1;
  target = some (60 + 600 * 1000000000);
}

first_call :
    create_upload_session digest (answers "a" 60) input "k" []
    ≡ (ok first_created, first_upload ∷ [])
unfolding create_upload_session accepts policy_for allows_size lookup extension_allowed trim_space
    to_lower media_extensions sanitize_file_name base_name find_upload create_new
first_call = refl

-- Another size under the same key.
other_input :
    (create_upload_session digest
      (answers "b" 61)
      (record input { max_size_bytes = 900 })
      "k"
      (first_upload ∷ [])).0
    ≡ err conflict
unfolding create_upload_session accepts policy_for allows_size lookup extension_allowed trim_space
    to_lower media_extensions sanitize_file_name base_name find_upload create_new
other_input = refl

-- A name whose extension is not of the type.
wrong_extension :
    (create_upload_session digest
      (answers "b" 61)
      (record input { original_file_name = "week.pdf/week" })
      "k"
      []).0
    ≡ err invalid_input
unfolding create_upload_session accepts policy_for allows_size lookup extension_allowed trim_space
    to_lower media_extensions sanitize_file_name base_name find_upload create_new
wrong_extension = refl

-- The call that loses the race answers with the upload of the other one.
lost_race :
    create_upload_session digest
      (record (answers "b" 60) { rivals = first_upload ∷ [] })
      input
      "k"
      []
    ≡ (ok first_created, first_upload ∷ [])
unfolding create_upload_session accepts policy_for allows_size lookup extension_allowed trim_space
    to_lower media_extensions sanitize_file_name base_name find_upload create_new
lost_race = refl

abbrev complete_it : Upload → Upload
complete_it (a, s) = (record a { upload_status = completed }, record s { status = completed })

create_repeats_example :
    (d : CreatedUpload) × (create_upload_session digest
        (answers "b" 99)
        input
        "k"
        (map complete_it (create_upload_session digest (answers "a" 60) input "k" []).1)
      ≡ (ok d, map complete_it (create_upload_session digest (answers "a" 60) input "k" []).1))
    × (d.asset.id ≡ "a")
create_repeats_example =
    create_repeats digest (answers "a" 60) (answers "b" 99) input "k" [] complete_it first_created
      (λ u. (refl, refl, refl, refl)) refl refl (λ i. (first_call i).0)
