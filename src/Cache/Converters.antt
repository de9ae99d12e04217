-- ===== src/Cache/Converters.antt =====
-- backend/social/internal/service/cache/converter: both converters are encoding/json at the type of
-- their values.
use otus_highload.Base.{String, List}
use otus_highload.Storage.{PostExtended}
use otus_highload.Feed.Notifier.{Codec}
use otus_highload.Cache.Load.{ValueConverter}
use otus_highload.Cache.Fresh.{RoundTrips}

abbrev pub post_feed_converter :
    Codec String (List PostExtended) → ValueConverter (List PostExtended)
post_feed_converter json = record {
  convert_to_string = json.marshal;
  convert_from_string = json.unmarshal;
}

abbrev pub subscriber_converter : Codec String (List String) → ValueConverter (List String)
subscriber_converter json = record {
  convert_to_string = json.marshal;
  convert_from_string = json.unmarshal;
}

-- What the theorems on the caches ask of a converter.
pub post_feed-RoundTrips :
    (json : Codec String (List PostExtended)) → RoundTrips (post_feed_converter json)
post_feed-RoundTrips json = json.round

pub subscriber-RoundTrips :
    (json : Codec String (List String)) → RoundTrips (subscriber_converter json)
subscriber-RoundTrips json = json.round
