-- ===== src/LoadBalancer.antt =====
-- app/proxy/loadbalancer.go. The targets are objects that the balancer, the proxy and the health
-- checker share, so they live in a store and a balancer holds their addresses (Target). Next holds
-- the balancers and their `Next`, Create the factory.
pub mod Target
pub mod Next
pub mod Create
pub mod Sound
pub mod RoundRobin
pub mod Concurrent
pub mod Weighted
pub mod Least
pub mod Available
