-- ===== src/Routing.antt =====
-- internal/infrastructure/routing/haversine.go: routes as straight lines, for a program without a
-- routing service. Child: google_routes.go.
pub mod Google
use smallworld_be.Prelude.{ℕ}
use smallworld_be.Prelude.Int.{ℤ, pos}
use smallworld_be.Domain.Models.{Float64, Location}
use smallworld_be.Domain.Errors.{Result, ok}
use smallworld_be.World.{Floats, RoutePlan, RoutingProvider}

pub record HaversineProvider : Type 0 where
  pub walking_meters_per_second : Float64
  pub driving_meters_per_second : Float64

-- 1.4, as its bits, and 10.
unfoldable pub new_haversine_provider : Floats → HaversineProvider
new_haversine_provider f = record {
  walking_meters_per_second = 0x3FF6666666666666;
  driving_meters_per_second = f.of_int (pos 10);
}

-- The product of 2 and the earth's radius is a constant that the compiler computes.
unfoldable pub haversine_meters : Floats → Location → Location → ℤ
haversine_meters f a b =
    let radians = λ (x : Float64). f.divide (f.multiply x f.pi) (f.of_int (pos 180)) in
    let lat1 = radians a.lat in
    let lat2 = radians b.lat in
    let d_lat = radians (f.subtract b.lat a.lat) in
    let d_lng = radians (f.subtract b.lng a.lng) in
    let sin_lat = f.sine (f.divide d_lat (f.of_int (pos 2))) in
    let sin_lng = f.sine (f.divide d_lng (f.of_int (pos 2))) in
    let cosines = f.multiply (f.cosine lat1) (f.cosine lat2) in
    let h = f.add (f.multiply sin_lat sin_lat) (f.multiply (f.multiply cosines sin_lng) sin_lng) in
    f.to_int (f.multiply (f.of_int (pos 12_742_000)) (f.arcsine (f.square_root h)))

-- int(float64(distance) / speed)
unfoldable pub seconds_for : Floats → ℤ → Float64 → ℤ
seconds_for f meters speed = f.to_int (f.divide (f.of_int meters) speed)

-- The three methods; no context is looked at, and none of them fails.
unfoldable pub haversine_route : Floats → HaversineProvider → Location → Location → Result RoutePlan
unfolding haversine_meters seconds_for
haversine_route f p origin destination =
    let distance = haversine_meters f origin destination in
    ok (record {
      distance_meters = distance;
      duration_seconds = seconds_for f distance p.driving_meters_per_second;
      polyline = "";
    })

unfoldable pub haversine_walking : Floats → HaversineProvider → Location → Location → Result (ℤ × ℤ)
unfolding haversine_meters seconds_for
haversine_walking f p origin destination =
    let distance = haversine_meters f origin destination in
    ok (seconds_for f distance p.walking_meters_per_second, distance)

unfoldable pub haversine_driving : Floats → HaversineProvider → Location → Location → Result (ℤ × ℤ)
unfolding haversine_meters seconds_for
haversine_driving f p origin destination =
    let distance = haversine_meters f origin destination in
    ok (seconds_for f distance p.driving_meters_per_second, distance)

unfoldable pub haversine_provider : Floats → HaversineProvider → RoutingProvider
unfolding haversine_route haversine_walking haversine_driving
haversine_provider f p = record {
  route = haversine_route f p;
  walking_eta_seconds = haversine_walking f p;
  driving_eta_seconds = haversine_driving f p;
}
