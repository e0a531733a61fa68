-- ===== src/Uploads/Requested.antt =====
-- The requests for a scan that the rows of an upload should have (internal/postgres/store.go).
use asset_api.Base.{
  String, All, Distinct, ◌≡◌, subst, Bool, true, false, ◌&&◌, not, Option, none, some, List, [],
  ◌∷◌, arith, str_eq,
}
use asset_api.Statuses.{scan_is, scan_failed, completed, upload_is}
use asset_api.Uploads.Store.{Asset, UploadSession, ScanRequest, Rows, is_trusted_asset, has_request}

-- A scan is asked for: the asset is completed, and not marked clean by the service itself.
abbrev pub needs_scan : Asset → Bool
needs_scan a = upload_is a.upload_status completed && not (is_trusted_asset a)

abbrev pub request_of : Asset → ScanRequest
request_of a = record { event_id = a.scan_event_id; asset_id = a.id; etag = a.etag }

abbrev pub event_of : ScanRequest → String
event_of r = r.event_id

abbrev pub OfAsset : Asset → ScanRequest → Type 0
OfAsset a r = (r.asset_id ≡ a.id) × (r.etag ≡ a.etag)

-- The newest request is that of the event the asset has; the older ones are of the asset, too, and all
-- events differ.
abbrev pub Requested : Bool → Asset → List ScanRequest → Type 0
Requested true a requests =
    (older : List ScanRequest) × (requests ≡ request_of a ∷ older)
    × Distinct event_of requests
    × All (OfAsset a) older
Requested false a requests = (requests ≡ []) × (scan_is a.scan_status scan_failed ≡ false)

-- Nothing is said of a purged asset.
abbrev pub UnlessPurged : Bool → Asset → List ScanRequest → Type 0
UnlessPurged true a requests = Unit
UnlessPurged false a requests = Requested (needs_scan a) a requests

abbrev pub RowIsExact : Option (Asset × UploadSession) → List ScanRequest → Type 0
RowIsExact none requests = requests ≡ []
RowIsExact (some (a, s)) requests =
    (a.upload_status ≡ s.status) × UnlessPurged a.is_purged a requests

abbrev pub IsExact : Rows → Type 0
IsExact rows = RowIsExact rows.upload rows.requests

-- Both cases, where the test is known.
pub unpurged :
    (a : Asset) (requests : List ScanRequest)
    → a.is_purged ≡ false
    → UnlessPurged a.is_purged a requests
    → Requested (needs_scan a) a requests
unpurged a requests p h = subst (λ b. UnlessPurged b a requests) p h

pub there :
    (a : Asset) (requests : List ScanRequest)
    → Requested (needs_scan a) a requests
    → UnlessPurged a.is_purged a requests
there a requests h = if-known (λ b. UnlessPurged b a requests) a.is_purged tt h
  where
    if-known : (P : Bool → Type 0) (b : Bool) → P true → P false → P b
    if-known P true t f = t
    if-known P false t f = f

pub unscanned :
    (a : Asset) (requests : List ScanRequest)
    → needs_scan a ≡ false
    → Requested (needs_scan a) a requests
    → (requests ≡ []) × (scan_is a.scan_status scan_failed ≡ false)
unscanned a requests n h = subst (λ b. Requested b a requests) n h

pub new_event :
    (event_id : String) (requests : List ScanRequest)
    → has_request event_id requests ≡ false
    → All (λ r. str_eq (event_of r) event_id ≡ false) requests
new_event event_id [] h = tt
new_event event_id (r ∷ rs) h = (ground (arith, h), new_event event_id rs (ground (arith, h)))
